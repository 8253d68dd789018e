-- ===== src/Signal/Server/Routes/Origin.antt =====
-- server.go: the header that lets a browser read an answer.
use cloudbridge.Common.{
  ℕ, ◌≡◌, refl, ◌∙◌, [], ◌∷◌, String, string_eq, ◌==◌, ne_of_beq, Bool-cases, inl, inr,
}
use cloudbridge.Http.{Request, Header, Handler, values, set_header, literal}
use cloudbridge.Http.Headers.{
  Keeps, AllKeep, serve_mux-Keeps, values-set_header_ne, values-set_header_self,
}
use cloudbridge.Signal.Client.{Heap}
use cloudbridge.Signal.Hub.{Hub}
use cloudbridge.Signal.Sessions.{SessionManager}
use cloudbridge.Signal.Server.Routes.{
  ServerConfig, allow_origin, cors_header, cors_middleware, api_routes, health, literals, plain,
  signal_handler,
}

content_type-kept :
    (hs : Header)
    → values allow_origin (set_header "Content-Type" "application/json" hs) ≡ values allow_origin hs
content_type-kept hs =
    values-set_header_ne allow_origin "Content-Type" "application/json" hs
      (ne_of_beq allow_origin "Content-Type" refl)

pub cors_header-origin : (hs : Header) → values allow_origin (cors_header hs) ≡ "*" ∷ []
cors_header-origin hs =
    values-set_header_ne allow_origin "Access-Control-Allow-Headers" "Content-Type" _
      (ne_of_beq allow_origin "Access-Control-Allow-Headers" refl)
    ∙ values-set_header_ne allow_origin "Access-Control-Allow-Methods" "GET, POST, OPTIONS" _
        (ne_of_beq allow_origin "Access-Control-Allow-Methods" refl)
    ∙ values-set_header_self allow_origin "*" hs

module _ (format : ℕ → String) (h : Heap) (u : Hub) (sm : SessionManager) where
  routes-AllKeep :
      (cfg : ServerConfig) (websocket : Handler)
      → Keeps allow_origin websocket
      → AllKeep allow_origin (
          plain (literals cfg.path) websocket
          ∷ plain (literal "health" ∷ []) (health)
          ∷ api_routes format h u sm)
  routes-AllKeep cfg websocket keeps = (
    λ vs. keeps,
    (
      λ vs r hs. refl,
      (
        λ vs r hs. content_type-kept hs,
        (
          λ vs r hs. content_type-kept hs,
          (λ vs r hs. content_type-kept hs, (λ vs r hs. content_type-kept hs, tt)),
        ),
      ),
    ),
  )

  -- Whatever is asked for, with whatever method, and whatever header was set before: the answer of
  -- the signal server allows every origin, once, if the upgrade to a WebSocket leaves that header as
  -- it is.
  pub signal_handler-origin :
      (cfg : ServerConfig) (websocket : Handler) (r : Request) (hs : Header)
      → Keeps allow_origin websocket
      → values allow_origin (signal_handler format h u sm cfg websocket r hs).header ≡ "*" ∷ []
  unfolding signal_handler cors_middleware
  signal_handler-origin cfg websocket r hs keeps = elim (Bool-cases (r.method == "OPTIONS")) [
    | inl y ↦ rw (y, cors_middleware) (cors_header-origin hs)
    | inr n ↦
        rw (n, cors_middleware)
          (serve_mux-Keeps allow_origin _ (ne_of_beq allow_origin "X-Content-Type-Options" refl)
              (ne_of_beq allow_origin "Content-Type" refl) (routes-AllKeep cfg websocket keeps) r
              (cors_header hs)
            ∙ cors_header-origin hs)
  ]
