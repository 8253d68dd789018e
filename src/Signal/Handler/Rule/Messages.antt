-- ===== src/Signal/Handler/Rule/Messages.antt =====
-- handler.go: every message, by the rule for the moves of the handlers.
use cloudbridge.Common.{
  ℕ, Bool, true, false, String, string_eq, ◌==◌, if◌then◌else◌, Option, none, some, Result, ok, err,
  ◌>>=◌, Bool-cases, inl, inr,
}
use cloudbridge.Common.Map.{lookup}
use cloudbridge.Protocol.Json.{Json}
use cloudbridge.Protocol.Messages.{
  ConnectRequestPayload, ConnectResponsePayload, SignalMessage, unmarshal_envelope,
  unmarshal_register, unmarshal_heartbeat, unmarshal_connect_request, unmarshal_connect_response,
  unmarshal_disconnect, unmarshal_sdp, unmarshal_ice_candidate, unmarshal_transport_negotiate,
}
use cloudbridge.Signal.Client.{Heap, Message, Panic}
use cloudbridge.Signal.Hub.{update_heartbeat, route, route_to_device}
use cloudbridge.Signal.Sessions.{
  rejected, closed, create_session, accept_session, reject_session, close_session, deliver,
  get_peer, route_to_peer,
}
use cloudbridge.Signal.Handler.{
  World, unmarshal, note_device, handle_register, handle_heartbeat, handle_connect_request,
  handle_connect_response, handle_sdp_offer, handle_sdp_answer, handle_ice_candidate,
  handle_transport_negotiate, handle_disconnect, forward, dispatch, handle_message,
  request_connection, conclude_request, answer_connection, conclude_response, send_error,
}
use cloudbridge.Signal.Handler.Rule.{
  IsKept, Handled, parsed, after_send, reply-Handled, send_error-Handled, forward-Handled,
  route-Sent, deliver-Sent,
}

either :
    (R : Result Panic World → Type 0) (b : Bool) (x y : Result Panic World)
    → R x
    → R y
    → R (if b then x else y)
either R true x y px py = px
either R false x y px py = py

module _ (p : ℕ) (P : World → Type 0) (k : IsKept p P) where
  handle_register-Handled :
      (body : Option Json) (now later : ℕ) (w : World)
      → P w
      → Handled P (handle_register p body now later w)
  unfolding handle_register
  handle_register-Handled body now later w g =
      parsed P (unmarshal unmarshal_register body) _ _ (send_error-Handled p P k _ _ w g) (λ reg.
        reply-Handled p P k _ (note_device p reg now later w) (k.registers reg now later w g))

  handle_heartbeat-Handled :
      (body : Option Json) (now millis : ℕ) (w : World)
      → P w
      → Handled P (handle_heartbeat p body now millis w)
  unfolding handle_heartbeat
  handle_heartbeat-Handled body now millis w g =
      parsed P (unmarshal unmarshal_heartbeat body) _ _ (send_error-Handled p P k _ _ w g) (λ hb.
        reply-Handled p P k _ (record w { hub = update_heartbeat (w.heap p).device_id now w.hub })
          (k.beats (w.heap p).device_id now w g))

  conclude_request-Handled :
      (req : ConnectRequestPayload) (w : World) (sent : Bool) (h : Heap)
      → P (record w { heap = h })
      → Handled P (conclude_request p req w (sent, h))
  unfolding conclude_request
  conclude_request-Handled req w true h g = g
  conclude_request-Handled req w false h g =
      send_error-Handled p P k _ _ _ (k.sets rejected req.session_id (record w { heap = h }) g)

  handle_connect_request-Handled :
      (body : Option Json) (now : ℕ) (w : World)
      → P w
      → Handled P (handle_connect_request p body now w)
  unfolding handle_connect_request request_connection route_to_device
  handle_connect_request-Handled body now w g =
      parsed P (unmarshal unmarshal_connect_request body) _ _ (send_error-Handled p P k _ _ w g)
        (λ req.
          let w' = record w {
            manager =
                (create_session req.session_id p req.device_id req.protocols now w.heap
                  w.manager).1;
          } in
          after_send P w' (route (lookup req.device_id w.hub.by_device) _ w.heap) _
            (route-Sent p P k (lookup req.device_id w.hub.by_device) _ w'
              (k.creates req.session_id req.device_id req.protocols now w g))
            (conclude_request-Handled req w'))

  conclude_response-Handled :
      (w : World) (sent : Bool) (h : Heap)
      → P (record w { heap = h })
      → Handled P (conclude_response p w (sent, h))
  unfolding conclude_response
  conclude_response-Handled w true h g = g
  conclude_response-Handled w false h g = send_error-Handled p P k _ _ _ g

  answered :
      (resp : ConnectResponsePayload) (w : World)
      → P w
      → P (record w {
        manager =
            if resp.accepted
            then (accept_session resp.session_id p w.heap w.manager).1
            else (reject_session resp.session_id w.manager).1;
      })
  answered resp w g = elim (Bool-cases resp.accepted) [
    | inl y ↦ rw y (k.accepts resp.session_id w g)
    | inr n ↦ rw n (k.sets rejected resp.session_id w g)
  ]

  handle_connect_response-Handled :
      (body : Option Json) (w : World) → P w → Handled P (handle_connect_response p body w)
  unfolding handle_connect_response answer_connection route_to_peer
  handle_connect_response-Handled body w g =
      parsed P (unmarshal unmarshal_connect_response body) _ _ (send_error-Handled p P k _ _ w g)
        (λ resp.
          let w' = record w {
            manager =
                if resp.accepted
                then (accept_session resp.session_id p w.heap w.manager).1
                else (reject_session resp.session_id w.manager).1;
          } in
          after_send P w' (deliver (get_peer resp.session_id p w.heap w'.manager) _ w.heap) _
            (deliver-Sent p P k (get_peer resp.session_id p w.heap w'.manager) _ w'
              (answered resp w g))
            (conclude_response-Handled w'))

  -- The handlers that only pass a message on.
  forwarder-Handled :
      {A : Type 0} (o : Option A) (r : Result Panic World) (session : A → String)
      (msg : A → Message) (w : World)
      → P w
      → Handled P r
      → Handled P (elim o [ none ↦ r | some a ↦ forward p (session a) (msg a) w ])
  forwarder-Handled o r session msg w g e =
      parsed P o r (λ a. forward p (session a) (msg a) w) e
        (λ a. forward-Handled p P k (session a) (msg a) w g)

  closing :
      (id : String) (r : Result Panic World)
      → Handled P r
      → Handled P (r >>= λ w. ok (record w { manager = (close_session id w.manager).1 }))
  closing id (ok w) g = k.sets closed id w g
  closing id (err x) g = tt

  handle_disconnect-Handled :
      (body : Option Json) (w : World) → P w → Handled P (handle_disconnect p body w)
  unfolding handle_disconnect
  handle_disconnect-Handled body w g =
      parsed P (unmarshal unmarshal_disconnect body) _ _ (send_error-Handled p P k _ _ w g)
        (λ disc. closing disc.session_id _ (forward-Handled p P k disc.session_id _ w g))

  dispatch-Handled :
      (m : SignalMessage) (now later : ℕ) (w : World) → P w → Handled P (dispatch p m now later w)
  unfolding dispatch handle_sdp_offer handle_sdp_answer handle_ice_candidate
      handle_transport_negotiate
  dispatch-Handled m now later w g =
      let H : Result Panic World → Type 0 = Handled P in
      let e : (code message : String) → Handled P (send_error p code message w) =
        λ code message. send_error-Handled p P k code message w g in
      either H (m.kind == "register") _ _ (handle_register-Handled m.body now later w g) (
        either H (m.kind == "heartbeat") _ _ (handle_heartbeat-Handled m.body now later w g) (
          either H (m.kind == "connect_request") _ _ (handle_connect_request-Handled m.body now w g)
            (either H (m.kind == "connect_response") _ _
              (handle_connect_response-Handled m.body w g)
              (either H (m.kind == "sdp_offer") _ _
                (forwarder-Handled (unmarshal unmarshal_sdp m.body) _ _ _ w g (e _ _))
                (either H (m.kind == "sdp_answer") _ _
                  (forwarder-Handled (unmarshal unmarshal_sdp m.body) _ _ _ w g (e _ _))
                  (either H (m.kind == "ice_candidate") _ _
                    (forwarder-Handled (unmarshal unmarshal_ice_candidate m.body) _ _ _ w g (e _ _))
                    (either H (m.kind == "transport_negotiate") _ _
                      (forwarder-Handled (unmarshal unmarshal_transport_negotiate m.body) _ _ _ w g
                        (e _ _))
                      (either H (m.kind == "disconnect") _ _ (handle_disconnect-Handled m.body w g)
                        (e _ _)))))))))

  -- What every move of a client's messages keeps, the handling of any message keeps.
  pub handle_message-Handled :
      (raw : Option Json) (now later : ℕ) (w : World)
      → P w
      → Handled P (handle_message p raw now later w)
  unfolding handle_message
  handle_message-Handled raw now later w g =
      parsed P (unmarshal unmarshal_envelope raw) _ _ (send_error-Handled p P k _ _ w g)
        (λ m. dispatch-Handled m now later w g)
