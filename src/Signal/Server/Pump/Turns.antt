-- ===== src/Signal/Server/Pump/Turns.antt =====
-- server.go: the messages that a turn of `writePump` writes.
use cloudbridge.Common.{
  ◌≢◌, ◌⊎◌, ℕ, ◌≡◌, refl, sym, ap, ◌∙◌, true, List, [], ◌∷◌, ◌++◌, Option, none, some, arith,
  append_assoc, append-nil, inl, inr, Bool-cases,
}
use cloudbridge.Signal.Client.{Heap, Message, store, store_self}
use cloudbridge.Signal.Server.Pump.{
  Sent, text_message, ping_message, close_message, WebSocket, goes_on, fails, ends, receive,
  after_write,
}

-- The messages among what was written.
abbrev pub texts : List Sent → List Message
texts [] = []
texts (text_message m ∷ ws) = m ∷ texts ws
texts (ping_message ∷ ws) = texts ws
texts (close_message ∷ ws) = texts ws

texts-append : (xs ys : List Sent) → texts (xs ++ ys) ≡ texts xs ++ texts ys
texts-append [] ys = refl
texts-append (text_message m ∷ xs) ys = ap (λ (ms : List Message). m ∷ ms) (texts-append xs ys)
texts-append (ping_message ∷ xs) ys = texts-append xs ys
texts-append (close_message ∷ xs) ys = texts-append xs ys

module _ {E W : Type 0} (Ws : WebSocket E W) (p : ℕ) where
  pub sent-text :
      (m : Sent) (w : W)
      → (texts (Ws.wrote (Ws.write_message m w).1) ≡ texts (Ws.wrote w))
        ⊎ (texts (Ws.wrote (Ws.write_message m w).1) ≡ texts (Ws.wrote w) ++ texts (m ∷ []))
  sent-text m w = elim (Ws.write_any m w) [
    | inl e ↦ inl (ap texts e)
    | inr e ↦ inr (ap texts e ∙ texts-append (Ws.wrote w) (m ∷ []))
  ]

  -- A write that is no message.
  pub control-text :
      (m : Sent) (w : W)
      → texts (m ∷ []) ≡ []
      → texts (Ws.wrote (Ws.write_message m w).1) ≡ texts (Ws.wrote w)
  control-text m w n = elim (sent-text m w) [
    | inl e ↦ e
    | inr e ↦ e ∙ rw n (append-nil (texts (Ws.wrote w)))
  ]

  received-text :
      (msg : Message) (w : W)
      → (Ws.write_message (text_message msg) w).0 ≡ none
      → texts (Ws.wrote (Ws.write_message (text_message msg) w).1)
        ≡ texts (Ws.wrote w) ++ (msg ∷ [])
  received-text msg w n =
      ap texts (Ws.write_ok (text_message msg) w n)
      ∙ texts-append (Ws.wrote w) (text_message msg ∷ [])

  pub wrote-goes_on :
      (r : Option E × W) (h h' : Heap) (w' : W)
      → after_write h r ≡ goes_on h' w'
      → (r.0 ≡ none) × (h ≡ h') × (r.1 ≡ w')
  wrote-goes_on (none, w) h h' w' e = (refl, ground (arith, e), ground (arith, e))
  wrote-goes_on (some x, w) h h' w' e = absurd (ground (arith, e))

  pub wrote-fails :
      (r : Option E × W) (h h' : Heap) (w' : W) → after_write h r ≡ fails h' w' → r.1 ≡ w'
  wrote-fails (none, w) h h' w' e = absurd (ground (arith, e))
  wrote-fails (some x, w) h h' w' e = ground (arith, e)

  pub wrote-ends : (r : Option E × W) (h h' : Heap) (w' : W) → after_write h r ≢ ends h' w'
  wrote-ends (none, w) h h' w' e = absurd (ground (arith, e))
  wrote-ends (some x, w) h h' w' e = absurd (ground (arith, e))

  pub receive-goes_on :
      (ms accepted : List Message) (h h' : Heap) (w w' : W)
      → accepted ≡ texts (Ws.wrote w) ++ ms
      → receive Ws ms p h w ≡ goes_on h' w'
      → accepted ≡ texts (Ws.wrote w') ++ (h' p).send
  receive-goes_on [] accepted h h' w w' g e = absurd (ground (arith, e))
  receive-goes_on (m ∷ ms) accepted h h' w w' g e =
      let c = record (h p) { send = ms } in
      let (n, sh, sw) = wrote-goes_on (Ws.write_message (text_message m) w) (store p c h) h' w' e in
      g
      ∙ rw (← sw, ← sh, received-text m w n, store_self p c h)
          (sym (append_assoc (texts (Ws.wrote w)) (m ∷ []) ms))

  pub receive-fails :
      (ms accepted : List Message) (h h' : Heap) (w w' : W)
      → accepted ≡ texts (Ws.wrote w) ++ ms
      → receive Ws ms p h w ≡ fails h' w'
      → (lost : List Message) × (accepted ≡ texts (Ws.wrote w') ++ lost)
  receive-fails [] accepted h h' w w' g e = absurd (ground (arith, e))
  receive-fails (m ∷ ms) accepted h h' w w' g e =
      let r = Ws.write_message (text_message m) w in
      let sw = wrote-fails r (store p (record (h p) { send = ms }) h) h' w' e in
      elim (sent-text (text_message m) w) [
        | inl o ↦ (m ∷ ms, g ∙ rw (← sw, o) refl)
        | inr o ↦ (ms, g ∙ rw (← sw, o) (sym (append_assoc (texts (Ws.wrote w)) (m ∷ []) ms)))
      ]

  pub receive-ends :
      (ms accepted : List Message) (h h' : Heap) (w w' : W)
      → accepted ≡ texts (Ws.wrote w) ++ ms
      → receive Ws ms p h w ≡ ends h' w'
      → (accepted ≡ texts (Ws.wrote w')) × ((h' p).closed ≡ true)
  receive-ends [] accepted h h' w w' g e = elim (Bool-cases (h p).closed) [
    | inl y ↦ (
      g
          ∙ append-nil (texts (Ws.wrote w))
          ∙ sym (control-text close_message w refl)
          ∙ ap (λ (v : W). texts (Ws.wrote v)) (ground (arith, e, y)),
      ground (arith, e, y),
    )
    | inr n ↦ absurd (ground (arith, e, n))
  ]
  receive-ends (m ∷ ms) accepted h h' w w' g e = absurd (
      wrote-ends (Ws.write_message (text_message m) w) (store p (record (h p) { send = ms }) h) h'
        w' e)
