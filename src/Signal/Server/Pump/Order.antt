-- ===== src/Signal/Server/Pump/Order.antt =====
-- server.go with hub.go: the order of the messages that a client is sent.
use cloudbridge.Common.{
  subst, ℕ, ◌≡◌, refl, ◌∙◌, true, List, [], ◌∷◌, ◌++◌, arith, append_assoc, ok, nat_eq_iff,
}
use cloudbridge.Signal.Client.{Client, Heap, Message, try_send, close_send}
use cloudbridge.Signal.Server.Pump.{
  ping_message, WebSocket, Case, receives, ticks, closes, goes_on, fails, pump_turn,
}
use cloudbridge.Signal.Server.Pump.Steps.{
  State, Pumping, running, failed, returned, Step, Reach, here, next, sends, drops, closes_channel,
  others, turns, breaks, stops,
}
use cloudbridge.Signal.Server.Pump.Turns.{
  texts, control-text, receive-goes_on, receive-fails, receive-ends, wrote-goes_on, wrote-fails,
}

module _ {E W : Type 0} (Ws : WebSocket E W) (p : ℕ) where
  -- How the messages that the channel took stand to those that were written: where the goroutine
  -- runs, the rest is in the channel; where it met an error, some are lost; where it returned, the
  -- channel is closed and all have been written.
  abbrev pub Written : Pumping → List Message → List Message → Client → Type 0
  Written running accepted written c = accepted ≡ written ++ c.send
  Written failed accepted written c = (lost : List Message) × (accepted ≡ written ++ lost)
  Written returned accepted written c = (accepted ≡ written) × (c.closed ≡ true)

  abbrev pub IsInOrder : State W → Type 0
  IsInOrder s = Written s.pumping s.accepted (texts (Ws.wrote s.socket)) (s.heap p)

  -- A send that the channel took.
  sent-Written :
      (f : Pumping) (accepted written : List Message) (msg : Message) (h h' : Heap)
      → try_send p msg h ≡ ok (true, h')
      → Written f accepted written (h p)
      → Written f (accepted ++ (msg ∷ [])) written (h' p)
  unfolding try_send
  sent-Written running a w msg h h' e g =
      rw (g, append_assoc w (h p).send (msg ∷ [])) (ground (arith, e, nat_eq_iff p p))
  sent-Written failed a w msg h h' e (lost, g) =
      (lost ++ (msg ∷ []), rw (g, append_assoc w lost (msg ∷ [])) refl)
  sent-Written returned a w msg h h' e g = absurd (ground (arith, e, g.1))

  -- Where the client keeps its queue, and its channel stays closed.
  same-Written :
      (f : Pumping) (accepted written : List Message) (c c' : Client)
      → c'.send ≡ c.send
      → (c.closed ≡ true → c'.closed ≡ true)
      → Written f accepted written c
      → Written f accepted written c'
  same-Written running a w c c' e k g = rw e g
  same-Written failed a w c c' e k g = g
  same-Written returned a w c c' e k g = (g.0, k g.1)

  turn-goes_on :
      (c : Case) (accepted : List Message) (h h' : Heap) (w w' : W)
      → Written running accepted (texts (Ws.wrote w)) (h p)
      → pump_turn Ws c p h w ≡ goes_on h' w'
      → Written running accepted (texts (Ws.wrote w')) (h' p)
  unfolding pump_turn
  turn-goes_on receives a h h' w w' g e = receive-goes_on Ws p (h p).send a h h' w w' g e
  turn-goes_on ticks a h h' w w' g e =
      let (n, sh, sw) = wrote-goes_on Ws p (Ws.write_message ping_message w) h h' w' e in
      g ∙ rw (← sh, ← sw, control-text Ws p ping_message w refl) refl
  turn-goes_on closes a h h' w w' g e = absurd (ground (arith, e))

  turn-fails :
      (c : Case) (accepted : List Message) (h h' : Heap) (w w' : W)
      → Written running accepted (texts (Ws.wrote w)) (h p)
      → pump_turn Ws c p h w ≡ fails h' w'
      → Written failed accepted (texts (Ws.wrote w')) (h' p)
  unfolding pump_turn
  turn-fails receives a h h' w w' g e = receive-fails Ws p (h p).send a h h' w w' g e
  turn-fails ticks a h h' w w' g e = (
    (h p).send,
    g
        ∙ rw
            (
              ← wrote-fails Ws p (Ws.write_message ping_message w) h h' w' e,
              control-text Ws p ping_message w refl,
            )
            refl,
  )
  turn-fails closes a h h' w w' g e = absurd (ground (arith, e))

  at_running :
      (s : State W)
      → s.pumping ≡ running
      → IsInOrder s
      → Written running s.accepted (texts (Ws.wrote s.socket)) (s.heap p)
  at_running s r g =
      subst (λ (f : Pumping). Written f s.accepted (texts (Ws.wrote s.socket)) (s.heap p)) r g

  Step-IsInOrder : (s s' : State W) → Step Ws p s s' → IsInOrder s → IsInOrder s'
  unfolding try_send close_send pump_turn
  Step-IsInOrder s _ (sends msg h e) g = sent-Written s.pumping s.accepted _ msg s.heap h e g
  Step-IsInOrder s _ (drops msg h e) g =
      same-Written s.pumping s.accepted _ (s.heap p) (h p) (ground (arith, e))
        (λ c. ground (arith, e, c)) g
  Step-IsInOrder s _ (closes_channel h e) g =
      same-Written s.pumping s.accepted _ (s.heap p) (h p) (ground (arith, e, nat_eq_iff p p))
        (λ c. ground (arith, e, c)) g
  Step-IsInOrder s _ (others h e k) g =
      same-Written s.pumping s.accepted _ (s.heap p) (h p) e (λ c. k ∙ c) g
  Step-IsInOrder s _ (turns c h w r e) g =
      rw r (turn-goes_on c s.accepted s.heap h s.socket w (at_running s r g) e)
  Step-IsInOrder s _ (breaks c h w r e) g =
      turn-fails c s.accepted s.heap h s.socket w (at_running s r g) e
  Step-IsInOrder s _ (stops h w r e) g =
      receive-ends Ws p (s.heap p).send s.accepted s.heap h s.socket w (at_running s r g) e

  -- From a new client, in every order of the sends, the close of the channel and the turns of the
  -- goroutine: the messages that the channel took are those that were written, in the same order,
  -- and then those in the channel while the goroutine runs, and some that are lost where a write has
  -- failed. Where it has returned, all have been written, and the channel is closed.
  pub Reach-IsInOrder :
      (s s' : State W)
      → Reach Ws p s s'
      → s.pumping ≡ running
      → (s.heap p).send ≡ []
      → s.accepted ≡ []
      → Ws.wrote s.socket ≡ []
      → IsInOrder s'
  Reach-IsInOrder s _ here r q a w = rw (r, q, a, w) refl
  Reach-IsInOrder s _ (next {t} {u} k x) r q a w =
      Step-IsInOrder t u x (Reach-IsInOrder s t k r q a w)
