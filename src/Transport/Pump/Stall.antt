-- ===== src/Transport/Pump/Stall.antt =====
-- A message that does not come in one piece.
use network_proxy.Prelude.{
  ltb, length, is_empty, Bytes, ℕ, zero, suc, ◌≤◌, ◌≡◌, refl, ap, ◌∙◌, Bool, true, false, none,
  List, [], ◌∷◌, arith,
}
use network_proxy.Protocol.Detector.{ProtocolKind, http, detect_protocol_kind}
use network_proxy.Transport.Pump.{
  Event, received, Pump, continue, start, decide, forward, filled, round, run,
}
use network_proxy.Transport.Reassembly.{try_take_http_message, append}

-- The pump holds the beginning of an HTTP message, too little of it to be forwarded.
pub record IsPartial (p : Pump) : Type 0 where
  pub decided : p.protocol_decided ≡ true
  pub kind : p.protocol_kind ≡ http
  pub holds : is_empty p.buffer ≡ false
  pub partial : try_take_http_message p.buffer ≡ none
  pub small : ltb 8192 (length p.buffer) ≡ false

decide-IsPartial : (p : Pump) → IsPartial p → decide p ≡ p
unfolding decide
decide-IsPartial p h = simp h.decided

module _ (patch : ProtocolKind → Bytes → Bytes) (send : List Bytes → Bytes → Bool) where
  forward-IsPartial :
      (p : Pump) (events : List Event)
      → IsPartial p
      → forward patch send p events ≡ continue p events
  unfolding forward
  forward-IsPartial p events h = simp (h.kind, h.partial, h.small)

  round-IsPartial :
      (p : Pump) (events : List Event) → IsPartial p → round patch send p events ≡ continue p events
  unfolding round filled
  round-IsPartial p events h =
      simp (h.holds) (rw (decide-IsPartial p h) (forward-IsPartial p events h))

  run-IsPartial :
      (rounds : ℕ) (p : Pump) (events : List Event)
      → IsPartial p
      → run patch send rounds p events ≡ (p, events)
  unfolding run
  run-IsPartial zero p events h = refl
  run-IsPartial (suc rounds) p events h =
      rw (run, round-IsPartial p events h) (run-IsPartial rounds p events h)

-- The pump behind a first read that is the beginning of an HTTP message.
abbrev pub stalled : Bytes → Pump
stalled chunk = record { buffer = chunk; protocol_decided = true; protocol_kind = http; sent = [] }

http-not-empty : (chunk : Bytes) → detect_protocol_kind chunk ≡ http → is_empty chunk ≡ false
unfolding detect_protocol_kind
http-not-empty [] h = cc
http-not-empty (c ∷ chunk) h = refl

stalled-IsPartial :
    (chunk : Bytes)
    → detect_protocol_kind chunk ≡ http
    → try_take_http_message chunk ≡ none
    → length chunk ≤ 8192
    → IsPartial (stalled chunk)
stalled-IsPartial chunk k n small = record {
  decided = refl;
  kind = refl;
  holds = http-not-empty chunk k;
  partial = n;
  small = ground arith;
}

decide-start :
    (chunk : Bytes)
    → detect_protocol_kind chunk ≡ http
    → decide (record (start []) { buffer = chunk }) ≡ stalled chunk
unfolding decide
decide-start chunk k = rw k

round-start :
    (patch : ProtocolKind → Bytes → Bytes) (send : List Bytes → Bytes → Bool) (chunk : Bytes)
    (events : List Event)
    → detect_protocol_kind chunk ≡ http
    → try_take_http_message chunk ≡ none
    → length chunk ≤ 8192
    → round patch send (start []) (received chunk ∷ events) ≡ continue (stalled chunk) events
unfolding round filled append
round-start patch send chunk events k n small =
    ap (λ (q : Pump). forward patch send q events) (decide-start chunk k)
    ∙ forward-IsPartial patch send (stalled chunk) events (stalled-IsPartial chunk k n small)

-- Once the first bytes of a direction are the beginning of an HTTP message, and not the whole of
-- one, the pump goes round for ever: after any number of rounds it has sent nothing, and has not
-- called `recv` again, so the rest of the message is never read.
pub run_stalls :
    (patch : ProtocolKind → Bytes → Bytes) (send : List Bytes → Bytes → Bool) (rounds : ℕ)
    (chunk : Bytes) (events : List Event)
    → detect_protocol_kind chunk ≡ http
    → try_take_http_message chunk ≡ none
    → length chunk ≤ 8192
    → run patch send (suc rounds) (start []) (received chunk ∷ events) ≡ (stalled chunk, events)
unfolding run
run_stalls patch send rounds chunk events k n small =
    rw (run, round-start patch send chunk events k n small)
      (run-IsPartial patch send rounds (stalled chunk) events (stalled-IsPartial chunk k n small))
