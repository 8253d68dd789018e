-- ===== src/Relay/Server/Steps.antt =====
-- server.go: the steps of the goroutines that handle connections, and of those that forward.
use cloudbridge.Common.{
  ℕ, ◌≡◌, ◌≢◌, true, List, [], ◌∷◌, ◌++◌, nat_eq, if◌then◌else◌, none, some, ok, err,
}
use cloudbridge.Relay.Session.{Session, RelayError, Conns, close_conn, peer_count, add_peer}
use cloudbridge.Relay.Server.{
  ServerConfig, Server, store_session, new_session, find_session, clean_up, end_relay, close_server,
}

-- Where the goroutine of a connection stands: before its handshake is read, with its session, in
-- it, after the acknowledgment, refused by a full session, or at the end.
pub data Phase : Type 0 where
  reading finished : Phase
  found joined acked full : List ℕ → ℕ → Phase

-- `relays` are the calls of `relaySession` that have been started, with the ID and the session.
pub record State : Type 0 where
  pub server : Server
  pub conns : Conns
  pub phase : ℕ → Phase
  pub relays : List (List ℕ × ℕ)

abbrev pub at_phase : ℕ → Phase → State → State
at_phase c ph st = record st { phase = λ q. if nat_eq c q then ph else st.phase q }

-- `conn.Close(); return`
abbrev pub leave : ℕ → State → State
leave c st = record (at_phase c finished st) { conns = close_conn c st.conns }

abbrev pub with_server : Server × Conns → State → State
with_server (srv, conns) st = record st { server = srv; conns = conns }

pub data Step (st : State) : State → Type 0 where
  fails : (c : ℕ) → st.phase c ≡ reading → Step st (leave c st)
  finds :
      (c : ℕ) (id : List ℕ) (now s : ℕ) (srv : Server)
      → st.phase c ≡ reading
      → find_session id now st.server ≡ some (s, srv)
      → Step st (at_phase c (found id s) (record st { server = srv }))
  rejects :
      (c : ℕ) (id : List ℕ) (now : ℕ)
      → st.phase c ≡ reading
      → find_session id now st.server ≡ none
      → Step st (leave c st)
  joins :
      (c : ℕ) (id : List ℕ) (s : ℕ) (x : Session)
      → st.phase c ≡ found id s
      → add_peer c (st.server.cells s) ≡ ok x
      → Step st (at_phase c (joined id s) (record st { server = store_session s x st.server }))
  overflows :
      (c : ℕ) (id : List ℕ) (s : ℕ) (e : RelayError)
      → st.phase c ≡ found id s
      → add_peer c (st.server.cells s) ≡ err e
      → Step st (at_phase c (full id s) (record st { conns = close_conn c st.conns }))
  cleans :
      (c : ℕ) (id : List ℕ) (s : ℕ)
      → st.phase c ≡ full id s
      → Step st (at_phase c finished (record st { server = clean_up id s st.server }))
  acks :
      (c : ℕ) (id : List ℕ) (s : ℕ)
      → st.phase c ≡ joined id s
      → Step st (at_phase c (acked id s) st)
  ack_fails : (c : ℕ) (id : List ℕ) (s : ℕ) → st.phase c ≡ joined id s → Step st (leave c st)
  establishes :
      (c : ℕ) (id : List ℕ) (s : ℕ)
      → st.phase c ≡ acked id s
      → peer_count (st.server.cells s) ≡ 2
      → Step st (at_phase c finished (record st { relays = (id, s) ∷ st.relays }))
  waits :
      (c : ℕ) (id : List ℕ) (s : ℕ)
      → st.phase c ≡ acked id s
      → peer_count (st.server.cells s) ≢ 2
      → Step st (at_phase c finished st)
  ends :
      (xs : List (List ℕ × ℕ)) (id : List ℕ) (s : ℕ) (ys : List (List ℕ × ℕ)) (n m : ℕ)
      → st.relays ≡ xs ++ ((id, s) ∷ ys)
      → Step st (with_server (end_relay id s n m st.server st.conns) st)
  shuts : Step st (with_server (close_server st.server st.conns) st)

pub data Reach (st : State) : State → Type 0 where
  here : Reach st st
  next : {t u : State} → Reach st t → Step t u → Reach st u

-- `NewServer`, before any connection.
abbrev pub new_server : ServerConfig → State
new_server cfg = record {
  server = record { config = cfg; cells = λ s. new_session [] 0 cfg; next = 0; sessions = [] };
  conns = λ c. true;
  phase = λ c. reading;
  relays = [];
}
