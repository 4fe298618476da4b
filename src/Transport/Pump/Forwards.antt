-- ===== src/Transport/Pump/Forwards.antt =====
-- Messages that each come in one piece.
use network_proxy.Prelude.{
  length, All, Bytes, suc, ◌≡◌, refl, ap, ◌∙◌, Bool, true, some, List, [], ◌∷◌, ◌++◌, map,
  append_assoc, append-nil,
}
use network_proxy.Protocol.Detector.{ProtocolKind, http, detect_protocol_kind}
use network_proxy.Transport.Pump.{
  Event, received, Pump, continue, start, patch_and_send, decide, forward, filled, round, run,
}
use network_proxy.Transport.Reassembly.{try_take_http_message, append}

-- The bytes of one HTTP message, and no more.
abbrev pub IsWhole : Bytes → Type 0
IsWhole message =
    (detect_protocol_kind message ≡ http) × (try_take_http_message message ≡ some (message, []))

-- The pump between two messages.
abbrev pub forwarded : List Bytes → Pump
forwarded sent = record { buffer = []; protocol_decided = true; protocol_kind = http; sent = sent }

abbrev pub reads : List Bytes → List Event → List Event
reads [] events = events
reads (message ∷ messages) events = received message ∷ reads messages events

module _ (patch : ProtocolKind → Bytes → Bytes) (send : List Bytes → Bytes → Bool)
    (sends : (sent : List Bytes) (wire : Bytes) → send sent wire ≡ true) where
  forward-IsWhole :
      (sent : List Bytes) (events : List Event) (message : Bytes)
      → IsWhole message
      → forward patch send (record (forwarded sent) { buffer = message }) events
        ≡ continue (forwarded (sent ++ patch http message ∷ [])) events
  unfolding forward patch_and_send
  forward-IsWhole sent events message w =
      rw (forward, w.1) (rw (patch_and_send, sends sent (patch http message)))

  filled-IsWhole :
      (p : Pump) (events : List Event) (message : Bytes)
      → IsWhole message
      → decide (record p { buffer = message }) ≡ record (forwarded p.sent) { buffer = message }
      → filled patch send (record p { buffer = message }) events
        ≡ continue (forwarded (p.sent ++ patch http message ∷ [])) events
  unfolding filled
  filled-IsWhole p events message w e =
      ap (λ (q : Pump). forward patch send q events) e ∙ forward-IsWhole p.sent events message w

  round-start :
      (events : List Event) (message : Bytes)
      → IsWhole message
      → round patch send (start []) (received message ∷ events)
        ≡ continue (forwarded (patch http message ∷ [])) events
  unfolding round append decide
  round-start events message w = filled-IsWhole (start []) events message w (rw (decide, w.0))

  round-forwarded :
      (sent : List Bytes) (events : List Event) (message : Bytes)
      → IsWhole message
      → round patch send (forwarded sent) (received message ∷ events)
        ≡ continue (forwarded (sent ++ patch http message ∷ [])) events
  unfolding round append decide
  round-forwarded sent events message w = filled-IsWhole (forwarded sent) events message w refl

  run-forwarded :
      (sent messages : List Bytes) (events : List Event)
      → All IsWhole messages
      → run patch send (length messages) (forwarded sent) (reads messages events)
        ≡ (forwarded (sent ++ map (patch http) messages), events)
  unfolding run
  run-forwarded sent [] events w = rw (append-nil sent)
  run-forwarded sent (message ∷ messages) events w =
      rw (run, round-forwarded sent (reads messages events) message w.0)
        (run-forwarded (sent ++ patch http message ∷ []) messages events w.1 ∙ simp append_assoc)

-- Where each read of a direction brings one whole HTTP message and every send succeeds, one round for
-- each message sends it, patched, in order, and nothing is held back.
pub run-forwards :
    (patch : ProtocolKind → Bytes → Bytes) (send : List Bytes → Bytes → Bool) (message : Bytes)
    (messages : List Bytes) (events : List Event)
    → ((sent : List Bytes) (wire : Bytes) → send sent wire ≡ true)
    → IsWhole message
    → All IsWhole messages
    → run patch send (suc (length messages)) (start []) (reads (message ∷ messages) events)
      ≡ (forwarded (map (patch http) (message ∷ messages)), events)
unfolding run
run-forwards patch send message messages events sends w ws =
    rw (run, round-start patch send sends (reads messages events) message w)
      (run-forwarded patch send sends (patch http message ∷ []) messages events ws)
