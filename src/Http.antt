-- ===== src/Http.antt =====
-- What the servers use of `net/http` and `net/http/httputil`: handlers, headers, `ServeMux` and
-- `ReverseProxy`. A path is its segments, with no percent-escapes, so "/" is one empty segment.
pub mod Headers
use cloudbridge.Common.{
  ℕ, Bool, true, false, not, ◌&&◌, ◌||◌, List, [], ◌∷◌, ◌++◌, String, string_eq, ◌==◌, Option, none,
  some, if◌then◌else◌,
}
use cloudbridge.Common.Map.{Map, delete}
use cloudbridge.Protocol.Json.{Json}

pub record Request : Type 0 where
  pub method : String
  pub host : String
  pub path : List String

-- A key has an entry for each of its values.
abbrev pub Header : Type 0
Header = Map String String

pub data Body : Type 0 where
  no_body : Body
  text : String → Body
  json : Json → Body

pub record Reply : Type 0 where
  pub header : Header
  pub status : ℕ
  pub body : Body

-- A handler gets the header as it has been set before it.
abbrev pub Handler : Type 0
Handler = Request → Header → Reply

-- `Header.Set`
unfoldable pub set_header : String → String → Header → Header
set_header key value hs = delete key hs ++ ((key, value) ∷ [])

-- `Header.Values`
unfoldable pub values : String → Header → List String
values key [] = []
values key ((k, v) ∷ hs) = let rest = values key hs in if k == key then v ∷ rest else rest

-- `http.Error`
abbrev pub http_error : ℕ → String → Header → Reply
http_error status message hs = record {
  header =
      set_header "X-Content-Type-Options" "nosniff"
        (set_header "Content-Type" "text/plain; charset=utf-8" hs);
  status = status;
  body = text message;
}

-- A segment of a pattern: a literal, or a name in braces.
pub data Segment : Type 0 where
  literal : String → Segment
  wildcard : Segment

-- A pattern with a method or with none; `subtree` says that it ends with a slash. The handler gets
-- the values of the wildcards.
pub record Route : Type 0 where
  pub method : Option String
  pub segments : List Segment
  pub subtree : Bool
  pub handler : List String → Handler

abbrev pub push_value : String → Option (List String) → Option (List String)
push_value x none = none
push_value x (some xs) = some (x ∷ xs)

-- The values of the wildcards where a pattern matches a path. A wildcard matches no empty segment.
unfoldable pub match_path : List Segment → Bool → List String → Option (List String)
match_path [] true [] = none
match_path [] true (x ∷ xs) = some []
match_path [] false [] = some []
match_path [] false (x ∷ xs) = none
match_path (s ∷ ss) subtree [] = none
match_path (literal l ∷ ss) subtree (x ∷ xs) =
    let rest = match_path ss subtree xs in if x == l then rest else none
match_path (wildcard ∷ ss) subtree (x ∷ xs) =
    let rest = match_path ss subtree xs in if x == "" then none else push_value x rest

-- A pattern for GET also takes HEAD.
unfoldable pub match_method : Option String → String → Bool
match_method none m = true
match_method (some g) m = g == m || (g == "GET" && m == "HEAD")

-- Where the table stands for a request: handled by a route, by a route for another method only, or
-- by none.
pub data Match : Type 0 where
  matched : Route → List String → Match
  other_method unmatched : Match

-- A route that takes another method only, before what the rest of the table gives.
abbrev pub or_other_method : Match → Match
or_other_method (matched rt vs) = matched rt vs
or_other_method other_method = other_method
or_other_method unmatched = other_method

abbrev pub match_route : Route → List String → Request → Match → Match
match_route rt vs r rest =
    if match_method rt.method r.method then matched rt vs else or_other_method rest

-- The first route that matches: a table lists its more specific patterns first.
unfoldable pub find_route : List Route → Request → Match
find_route [] r = unmatched
find_route (rt ∷ rts) r =
    let rest = find_route rts r in
    elim (match_path rt.segments rt.subtree r.path) [
      | none ↦ rest
      | some vs ↦ match_route rt vs r rest
    ]

-- A path that names a subtree without its slash is redirected there, if it has no pattern itself.
unfoldable pub names_subtree : List Route → List String → Bool
names_subtree [] path = false
names_subtree (rt ∷ rts) path =
    let rest = names_subtree rts path in
    elim (match_path rt.segments false path) [ none ↦ rest | some vs ↦ rt.subtree ]

abbrev pub found_reply : Match → Handler
found_reply (matched rt vs) r hs = rt.handler vs r hs
found_reply other_method r hs = http_error 405 "Method Not Allowed" hs
found_reply unmatched r hs = http_error 404 "404 page not found" hs

-- `cleanPath` leaves a path as it is: no segment is "." or "..", and at most the last one is empty.
unfoldable pub is_clean : List String → Bool
is_clean [] = false
is_clean (x ∷ []) = not (x == "." || x == "..")
is_clean (x ∷ y ∷ ys) =
    let rest = is_clean (y ∷ ys) in not (x == "" || x == "." || x == "..") && rest

unfoldable pub needs_cleaning : Request → Bool
needs_cleaning r = not (r.method == "CONNECT") && not (is_clean r.path)

-- `http.Redirect`, less what it says of the new place: `Location`, and a link to it.
abbrev pub moved_permanently : Header → Reply
moved_permanently hs = record { header = hs; status = 301; body = no_body }

-- `ServeMux.ServeHTTP`: a path that is not clean is redirected to the clean one, whatever the routes
-- are. The header `Allow` is left out.
unfoldable pub serve_mux : List Route → Handler
serve_mux rts r hs =
    if needs_cleaning r || names_subtree rts r.path
    then moved_permanently hs
    else found_reply (find_route rts r) r hs

-- `ReverseProxy.ServeHTTP`: the upstream's headers are added to those already set.
unfoldable pub reverse_proxy : (Request → Request) → Handler → Handler
reverse_proxy director upstream r hs =
    let reply = upstream (director r) [] in record reply { header = hs ++ reply.header }
