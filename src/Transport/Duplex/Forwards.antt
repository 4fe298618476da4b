-- ===== src/Transport/Duplex/Forwards.antt =====
-- What a pump still holds behind a round.
use network_proxy.Prelude.{
  ltb, not-ltb→le, Bool-cases, Option-cases, if_cases, length, is_empty, Bytes, ◌≤◌, ◌≡◌, refl, ◌≢◌,
  ◌⊎◌, inl, inr, Bool, true, none, List, [], ◌∷◌, ◌++◌,
}
use network_proxy.Protocol.Adapter.{is_http}
use network_proxy.Protocol.Detector.{ProtocolKind}
use network_proxy.Transport.Pump.{
  Event, received, closed, retry, failed, Pump, Round, continue, break, return, blocked,
  patch_and_send, decide, forward, filled, round, flush,
}
use network_proxy.Transport.Reassembly.{try_take_http_message, take_all, append}
use network_proxy.Transport.Duplex.{
  Side, Duplex, Direction, seen, usable, settle, advance, Step, outbound_runs, inbound_runs, Steps,
  no_step, then_step, duplex, side_of,
}

-- The pump holds nothing; or it has found HTTP, and holds no whole message and at most 8192 bytes, or
-- has handed over a message.
abbrev pub HasForwarded : Pump → Type 0
HasForwarded p =
    (p.buffer ≡ [])
    ⊎ ((is_http p.protocol_kind ≡ true)
        × (((try_take_http_message p.buffer ≡ none) × (length p.buffer ≤ 8192)) ⊎ (p.sent ≢ [])))

append-≢ : (l : List Bytes) (s : Bytes) → l ++ s ∷ [] ≢ []
append-≢ [] s = λ e. cc e
append-≢ (m ∷ l) s = λ e. cc e

sent-HasForwarded :
    (p : Pump) (wire buffer : Bytes)
    → (buffer ≡ []) ⊎ (is_http p.protocol_kind ≡ true)
    → HasForwarded (record p { buffer = buffer; sent = p.sent ++ wire ∷ [] })
sent-HasForwarded p wire buffer (inl e) = inl e
sent-HasForwarded p wire buffer (inr k) = inr (k, inr (append-≢ p.sent wire))

-- The pump `q` runs the round; it reads only where its buffer is empty.
abbrev LeavesNothing : Pump → Round → Type 0
LeavesNothing q (continue p events) = HasForwarded p
LeavesNothing q (break p events) = p.buffer ≡ []
LeavesNothing q (return p events) = HasForwarded p
LeavesNothing q (blocked p) = q.buffer ≡ []

is_empty-≡ : (s : Bytes) → is_empty s ≡ true → s ≡ []
is_empty-≡ [] h = refl
is_empty-≡ (c ∷ s) h = absurd (cc h)

module _ (patch : ProtocolKind → Bytes → Bytes) (send : List Bytes → Bytes → Bool) (q : Pump) where
  patch_and_send-LeavesNothing :
      (p : Pump) (events : List Event) (payload buffer : Bytes)
      → (buffer ≡ []) ⊎ (is_http p.protocol_kind ≡ true)
      → LeavesNothing q (patch_and_send patch send p events payload buffer)
  unfolding patch_and_send
  patch_and_send-LeavesNothing p events payload buffer h =
      if_cases (LeavesNothing q) (send p.sent (patch p.protocol_kind payload)) _ _
        (λ _. sent-HasForwarded p (patch p.protocol_kind payload) buffer h)
        λ _. sent-HasForwarded p (patch p.protocol_kind payload) buffer h

  forward-LeavesNothing :
      (p : Pump) (events : List Event) → LeavesNothing q (forward patch send p events)
  unfolding forward take_all
  forward-LeavesNothing p events =
      if_cases (LeavesNothing q) (is_http p.protocol_kind) _ _
        (λ k. elim (Option-cases (try_take_http_message p.buffer)) [
          | inl n ↦ rw n (
              if_cases (LeavesNothing q) (ltb 8192 (length p.buffer)) _ _
                (λ _. patch_and_send-LeavesNothing p events p.buffer [] (inl refl))
                λ b. inr (k, inl (n, not-ltb→le 8192 (length p.buffer) b)))
          | inr ((message, rest), m) ↦
              rw m (patch_and_send-LeavesNothing p events message rest (inr k))
        ])
        λ _.
          if_cases (LeavesNothing q) (is_empty p.buffer) _ _ (λ b. inl (is_empty-≡ p.buffer b))
            λ _. patch_and_send-LeavesNothing p events p.buffer [] (inl refl)

  read-LeavesNothing :
      (events : List Event) → is_empty q.buffer ≡ true → LeavesNothing q (round patch send q events)
  unfolding round filled
  read-LeavesNothing [] b = rw (round, b) (is_empty-≡ q.buffer b)
  read-LeavesNothing (received chunk ∷ events) b =
      rw (round, b)
        (forward-LeavesNothing (decide (record q { buffer = append q.buffer chunk })) events)
  read-LeavesNothing (closed ∷ events) b = rw (round, b) (is_empty-≡ q.buffer b)
  read-LeavesNothing (retry ∷ events) b = rw (round, b) (inl (is_empty-≡ q.buffer b))
  read-LeavesNothing (failed ∷ events) b = rw (round, b) (is_empty-≡ q.buffer b)

  round-LeavesNothing : (events : List Event) → LeavesNothing q (round patch send q events)
  unfolding round filled
  round-LeavesNothing events = elim (Bool-cases (is_empty q.buffer)) [
    | inl b ↦ read-LeavesNothing events b
    | inr b ↦ rw (round, b) (forward-LeavesNothing (decide q) events)
  ]

settle-HasForwarded :
    (patch : ProtocolKind → Bytes → Bytes) (send : List Bytes → Bytes → Bool) (side : Side)
    (r : Round)
    → LeavesNothing side.pump r
    → HasForwarded (settle patch send side r).0.pump
unfolding settle flush
settle-HasForwarded patch send side (continue p events) h = h
settle-HasForwarded patch send side (return p events) h = h
settle-HasForwarded patch send side (blocked p) h = inl h
settle-HasForwarded patch send side (break p events) h =
    if_cases HasForwarded (is_empty p.buffer) _ _ (λ _. inl h) λ _. inl refl

advance-HasForwarded :
    (way : Direction) (shut : Bool) (side : Side) → HasForwarded (advance way shut side).0.pump
unfolding advance
advance-HasForwarded way shut side =
    settle-HasForwarded way.patch (usable shut way.send) side
      (round way.patch (usable shut way.send) side.pump (seen shut side.events))
      (round-LeavesNothing way.patch (usable shut way.send) side.pump (seen shut side.events))

-- The outbound pump has not begun, or it has passed on what it had, as the inbound one has.
abbrev pub AreForwarding : Bytes → List Event → Duplex → Type 0
AreForwarding first from_client d =
    ((d.outbound ≡ side_of first from_client) ⊎ HasForwarded d.outbound.pump)
    × HasForwarded d.inbound.pump

Step-AreForwarding :
    (out into : Direction) (first : Bytes) (from_client from_upstream : List Event) {d e : Duplex}
    → Step out into d e
    → AreForwarding first from_client d
    → AreForwarding first from_client e
Step-AreForwarding out into first from_client from_upstream {d} (outbound_runs r) (a, b) =
    (inr (advance-HasForwarded out d.shut d.outbound), b)
Step-AreForwarding out into first from_client from_upstream {d} (inbound_runs r) (a, b) =
    (a, advance-HasForwarded into d.shut d.inbound)

pub Steps-AreForwarding :
    (out into : Direction) (first : Bytes) (from_client from_upstream : List Event) {d : Duplex}
    → Steps out into (duplex first from_client from_upstream) d
    → AreForwarding first from_client d
Steps-AreForwarding out into first from_client from_upstream no_step = (inl refl, inl refl)
Steps-AreForwarding out into first from_client from_upstream (then_step s t) =
    Step-AreForwarding out into first from_client from_upstream t
      (Steps-AreForwarding out into first from_client from_upstream s)
