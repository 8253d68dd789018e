-- ===== src/Api/Stats.antt =====
-- device.go: the counts, and the list of sessions.
use cloudbridge.Common.{
  ◌≡◌, refl, String, string_eq, length, List, [], ◌∷◌, map, Option-cases, inl, inr,
}
use cloudbridge.Common.Map.{lookup}
use cloudbridge.Signal.Hub.{Hub}
use cloudbridge.Signal.Sessions.{SessionManager, SessionStatus, set_status, list_sessions}
use cloudbridge.Api.{get_stats}

length-map {ℓ κ} :
    {A : Type ℓ} {B : Type κ} (f : A → B) (xs : List A) → length (map f xs) ≡ length xs
length-map f [] = refl
length-map f (x ∷ xs) = rw (length-map f xs)

-- A session that is rejected or closed stays in the count of active sessions.
pub get_stats-set_status :
    (u : Hub) (st : SessionStatus) (id : String) (sm : SessionManager)
    → get_stats u (set_status st id sm).1 ≡ get_stats u sm
unfolding get_stats set_status list_sessions
get_stats-set_status u st id sm = elim (Option-cases (lookup id sm.sessions)) [
  | inl e ↦ rw (e, set_status) refl
  | inr (s, e) ↦ rw (e, set_status) (simp length-map)
]
