-- ===== src/Http/Headers.antt =====
-- `net/http`: what a header has for a key, behind `Header.Set` and `ServeMux`.
use cloudbridge.Common.{
  ℕ, ◌≡◌, ◌≢◌, refl, ◌∙◌, List, [], ◌∷◌, ◌++◌, String, string_eq, subst, arith, append-nil, All,
  Bool-cases, Option-cases, inl, inr, ◌||◌,
}
use cloudbridge.Common.Map.{delete}
use cloudbridge.Http.{
  Request, Header, Handler, Route, Match, matched, other_method, unmatched, set_header, values,
  http_error, match_path, match_method, or_other_method, found_reply, find_route, names_subtree,
  needs_cleaning, serve_mux,
}

pub values-append : (k : String) (xs ys : Header) → values k (xs ++ ys) ≡ values k xs ++ values k ys
unfolding values
values-append k [] ys = refl
values-append k ((j, v) ∷ xs) ys = ground (arith, values-append k xs ys)

values-delete_ne : (k key : String) (hs : Header) → k ≢ key → values k (delete key hs) ≡ values k hs
unfolding values delete
values-delete_ne k key [] n = refl
values-delete_ne k key ((j, v) ∷ hs) n =
    ground (arith, values-delete_ne k key hs n, string_eq.beq_iff j key, string_eq.beq_iff j k)

values-delete_self : (k : String) (hs : Header) → values k (delete k hs) ≡ []
unfolding values delete
values-delete_self k [] = refl
values-delete_self k ((j, v) ∷ hs) = ground (arith, values-delete_self k hs)

values-one_ne : (k key v : String) → k ≢ key → values k ((key, v) ∷ []) ≡ []
unfolding values
values-one_ne k key v n = ground (arith, string_eq.beq_iff key k)

values-one_self : (k v : String) → values k ((k, v) ∷ []) ≡ v ∷ []
unfolding values
values-one_self k v = ground (arith, string_eq.beq_iff k k)

pub values-set_header_ne :
    (k key v : String) (hs : Header) → k ≢ key → values k (set_header key v hs) ≡ values k hs
unfolding set_header
values-set_header_ne k key v hs n =
    values-append k (delete key hs) ((key, v) ∷ [])
    ∙ rw (values-delete_ne k key hs n, values-one_ne k key v n) (append-nil (values k hs))

pub values-set_header_self : (k v : String) (hs : Header) → values k (set_header k v hs) ≡ v ∷ []
unfolding set_header
values-set_header_self k v hs =
    values-append k (delete k hs) ((k, v) ∷ [])
    ∙ rw (values-delete_self k hs, values-one_self k v) refl

-- A handler leaves a key of the header as it is.
abbrev pub Keeps : String → Handler → Type 0
Keeps k next = (r : Request) (hs : Header) → values k (next r hs).header ≡ values k hs

http_error-kept :
    (k : String) (status : ℕ) (message : String) (hs : Header)
    → k ≢ "X-Content-Type-Options"
    → k ≢ "Content-Type"
    → values k (http_error status message hs).header ≡ values k hs
http_error-kept k status message hs n m =
    values-set_header_ne k "X-Content-Type-Options" "nosniff" _ n
    ∙ values-set_header_ne k "Content-Type" "text/plain; charset=utf-8" hs m

or_other_method-matched :
    (x : Match) (rt : Route) (vs : List String)
    → or_other_method x ≡ matched rt vs
    → x ≡ matched rt vs
or_other_method-matched (matched rt' vs') rt vs e = e
or_other_method-matched other_method rt vs e = absurd (cc e)
or_other_method-matched unmatched rt vs e = absurd (cc e)

-- All handlers of a table do.
abbrev pub AllKeep : String → List Route → Type 0
AllKeep k rts = All (λ (rt : Route). (vs : List String) → Keeps k (rt.handler vs)) rts

matched-kept :
    (k : String) (rts : List Route) (r : Request) (rt : Route) (vs : List String)
    → AllKeep k rts
    → find_route rts r ≡ matched rt vs
    → Keeps k (rt.handler vs)
unfolding find_route
matched-kept k [] r rt vs all e = absurd (ground (arith, e))
matched-kept k (rt' ∷ rts) r rt vs all e =
    elim (Option-cases (match_path rt'.segments rt'.subtree r.path)) [
      | inl n ↦ matched-kept k rts r rt vs all.1 (ground (arith, e, n))
      | inr (ws, y) ↦ elim (Bool-cases (match_method rt'.method r.method)) [
        | inl m ↦
            subst (λ (x : Route × List String). Keeps k (x.0.handler x.1)) {x = (rt', ws)}
              {y = (rt, vs)} (ground (arith, e, y, m)) (all.0 ws)
        | inr m ↦
            matched-kept k rts r rt vs all.1
              (or_other_method-matched (find_route rts r) rt vs (ground (arith, e, y, m)))
      ]
    ]

found-kept :
    (k : String) (rts : List Route) (r : Request) (hs : Header) (x : Match)
    → k ≢ "X-Content-Type-Options"
    → k ≢ "Content-Type"
    → AllKeep k rts
    → find_route rts r ≡ x
    → values k (found_reply x r hs).header ≡ values k hs
found-kept k rts r hs (matched rt vs) n m all e = matched-kept k rts r rt vs all e r hs
found-kept k rts r hs other_method n m all e = http_error-kept k 405 "Method Not Allowed" hs n m
found-kept k rts r hs unmatched n m all e = http_error-kept k 404 "404 page not found" hs n m

-- Then `ServeMux` does.
pub serve_mux-Keeps :
    (k : String) (rts : List Route)
    → k ≢ "X-Content-Type-Options"
    → k ≢ "Content-Type"
    → AllKeep k rts
    → Keeps k (serve_mux rts)
unfolding serve_mux
serve_mux-Keeps k rts n m all r hs =
    elim (Bool-cases (needs_cleaning r || names_subtree rts r.path)) [
      | inl y ↦ rw (y, serve_mux) refl
      | inr y ↦ rw (y, serve_mux) (found-kept k rts r hs (find_route rts r) n m all refl)
    ]
