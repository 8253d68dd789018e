-- ===== src/Relay/Server/Tests.antt =====
-- server.go at concrete inputs, and the theorems at inputs that meet their hypotheses.
use cloudbridge.Common.{
  ℕ, ◌≡◌, refl, ◌≤◌, ◌<◌, All, false, List, [], ◌∷◌, bytes_eq, none, some, length, arith,
}
use cloudbridge.Common.Map.{lookup, insert}
use cloudbridge.Relay.Session.{Session, peer_count, add_peer}
use cloudbridge.Relay.Server.{ServerConfig, Server, store_session, find_session}
use cloudbridge.Relay.Server.Steps.{
  State, Reach, new_server, at_phase, leave, found, joined, acked, finished, here, next, finds,
  rejects, joins, acks, establishes,
}
use cloudbridge.Relay.Server.Bounds.{Reach-IsBounded}
use cloudbridge.Relay.Server.Forwarding.{Reach-IsPair}
use cloudbridge.Relay.Server.Matching.{sent_ids, Distinct}
use cloudbridge.Relay.Server.SameSession.{Reach-same_session}
use cloudbridge.Relay.Server.Race.{Reach-relay_twice}

abbrev small : ServerConfig
small = record { max_sessions = 1; quota_bytes = 0; quota_rate = 0 }

-- One session is open.
abbrev busy : Server
busy = record (new_server small).server { sessions = (7 ∷ [], 0) ∷ []; next = 1 }

find_session-busy : find_session (8 ∷ []) 5 busy ≡ none
unfolding find_session lookup
find_session-busy = refl

find_session-known : find_session (7 ∷ []) 5 busy ≡ some (0, busy)
unfolding find_session lookup
find_session-known = refl

Reach-relay_twice_example :
    (st : State) × (u : State) × Reach (new_server small) st
    × (st.phase 3 ≡ acked (7 ∷ []) 0)
    × (st.phase 4 ≡ acked (7 ∷ []) 0)
    × ((st.server.cells 0).peers ≡ 3 ∷ 4 ∷ [])
    × Reach st u
    × (u.phase 3 ≡ finished)
    × (u.phase 4 ≡ finished)
    × (u.relays ≡ (7 ∷ [], 0) ∷ (7 ∷ [], 0) ∷ [])
Reach-relay_twice_example =
    Reach-relay_twice small (7 ∷ []) 3 4 10 11 (omega arith) (λ e. absurd (omega arith))

abbrev race :
    (st : State) × (u : State) × Reach (new_server small) st
    × (st.phase 3 ≡ acked (7 ∷ []) 0)
    × (st.phase 4 ≡ acked (7 ∷ []) 0)
    × ((st.server.cells 0).peers ≡ 3 ∷ 4 ∷ [])
    × Reach st u
    × (u.phase 3 ≡ finished)
    × (u.phase 4 ≡ finished)
    × (u.relays ≡ (7 ∷ [], 0) ∷ (7 ∷ [], 0) ∷ [])
race = Reach-relay_twice small (7 ∷ []) 3 4 10 11 (omega arith) (λ e. absurd (omega arith))

followed : {s t u : State} → Reach s t → Reach t u → Reach s u
followed r here = r
followed r (next q k) = next (followed r q) k

-- The forwarding has been started twice.
abbrev twice : State
twice = race.1

abbrev twice_reached : Reach (new_server small) twice
twice_reached = followed race.2 race.6

Reach-IsBounded_example :
    (length twice.server.sessions ≤ 1) × ((s : ℕ) → peer_count (twice.server.cells s) ≤ 2)
Reach-IsBounded_example = Reach-IsBounded small twice twice_reached

Reach-IsPair_example :
    All (λ e. (e.1 < twice.server.next) × (peer_count (twice.server.cells e.1) ≡ 2)) twice.relays
Reach-IsPair_example = Reach-IsPair small twice twice_reached

-- Two connections with the ID 7 and one with the ID 8, which is rejected.
abbrev session : List ℕ → Session
session cs = record {
  id = 7 ∷ [];
  created_at = 10;
  peers = cs;
  bytes = 0;
  quota_bytes = 0;
  quota_rate = 0;
  closed = false;
}

abbrev start : State
start = new_server small

abbrev found_one : State
found_one = at_phase 3 (found (7 ∷ []) 0) (record start {
  server = record (store_session 0 (session []) start.server) {
    next = 1;
    sessions = (7 ∷ [], 0) ∷ [];
  };
})

abbrev rejected : State
rejected = leave 5 found_one

abbrev found_two : State
found_two = at_phase 4 (found (7 ∷ []) 0) rejected

abbrev joined_one : State
joined_one =
    at_phase 4 (joined (7 ∷ []) 0)
      (record found_two { server = store_session 0 (session (4 ∷ [])) found_two.server })

abbrev joined_two : State
joined_two =
    at_phase 3 (joined (7 ∷ []) 0)
      (record joined_one { server = store_session 0 (session (4 ∷ 3 ∷ [])) joined_one.server })

abbrev relaying : State
relaying =
    at_phase 3 finished
      (record (at_phase 3 (acked (7 ∷ []) 0) joined_two) { relays = (7 ∷ [], 0) ∷ [] })

relaying_reached : Reach start relaying
unfolding find_session add_peer lookup insert
relaying_reached =
    next
      (next
        (next
          (next
            (next
              (next (next here (finds 3 (7 ∷ []) 10 0 found_one.server refl refl))
                (rejects 5 (8 ∷ []) 11 refl refl))
              (finds 4 (7 ∷ []) 12 0 rejected.server refl refl))
            (joins 4 (7 ∷ []) 0 (session (4 ∷ [])) refl refl))
          (joins 3 (7 ∷ []) 0 (session (4 ∷ 3 ∷ [])) refl refl))
        (acks 3 (7 ∷ []) 0 refl))
      (establishes 3 (7 ∷ []) 0 refl refl)

Reach-same_session_example :
    ((sent_ids relaying_reached 4 ≡ some (7 ∷ []))
      × ((sent_ids relaying_reached 3 ≡ some (7 ∷ [])) × Unit {0}))
    × Distinct (4 ∷ 3 ∷ [])
Reach-same_session_example = (Reach-same_session small relaying relaying_reached).0
