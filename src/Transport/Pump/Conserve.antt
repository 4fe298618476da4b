-- ===== src/Transport/Pump/Conserve.antt =====
-- What the pump sends is what it receives.
use network_proxy.Prelude.{
  ltb, Bool-cases, Option-cases, length, is_empty, Bytes, ℕ, zero, suc, ◌≡◌, refl, ◌∙◌, inl, inr,
  Bool, true, false, List, [], ◌∷◌, ◌++◌, append_assoc, append-nil,
}
use network_proxy.Protocol.Adapter.{is_http}
use network_proxy.Protocol.Detector.{ProtocolKind}
use network_proxy.Transport.Pump.{
  Event, received, closed, retry, failed, Pump, Round, continue, break, return, blocked,
  patch_and_send, decide, forward, filled, round, flush, run,
}
use network_proxy.Transport.Reassembly.{try_take_http_message, take_all, append}
use network_proxy.Transport.Reassembly.Frames.{try_take-conserves}

abbrev pub concat : List Bytes → Bytes
concat [] = []
concat (s ∷ l) = s ++ concat l

concat-append : (l m : List Bytes) → concat (l ++ m) ≡ concat l ++ concat m
concat-append [] m = refl
concat-append (s ∷ l) m = rw (concat-append l m, append_assoc)

-- The bytes that are still to be received.
abbrev pub pending : List Event → Bytes
pending [] = []
pending (received chunk ∷ events) = chunk ++ pending events
pending (closed ∷ events) = pending events
pending (retry ∷ events) = pending events
pending (failed ∷ events) = pending events

-- All bytes, in the order of the stream: sent, in the buffer, to be received.
abbrev pub stream : Pump → List Event → Bytes
stream p events = concat p.sent ++ (p.buffer ++ pending events)

-- The patch that changes nothing.
abbrev pub pass : ProtocolKind → Bytes → Bytes
pass kind payload = payload

abbrev pub HasStream : Bytes → Round → Type 0
HasStream s (continue p events) = stream p events ≡ s
HasStream s (break p events) = stream p events ≡ s
HasStream s (return p events) = stream p events ≡ s
HasStream s (blocked p) = stream p [] ≡ s

stream-decide : (p : Pump) (events : List Event) → stream (decide p) events ≡ stream p events
unfolding decide
stream-decide p events = elim (Bool-cases p.protocol_decided) [
  | inl b ↦ rw (decide, b)
  | inr b ↦ rw (decide, b)
]

module _ (send : List Bytes → Bytes → Bool) where
  patch_and_send-HasStream :
      (p : Pump) (events : List Event) (payload buffer : Bytes)
      → payload ++ buffer ≡ p.buffer
      → HasStream (stream p events) (patch_and_send pass send p events payload buffer)
  unfolding patch_and_send
  patch_and_send-HasStream p events payload buffer e = elim (Bool-cases (send p.sent payload)) [
    | inl b ↦ rw (b, patch_and_send) moved
    | inr b ↦ rw (b, patch_and_send) moved
  ]
    where
      moved : concat (p.sent ++ payload ∷ []) ++ (buffer ++ pending events) ≡ stream p events
      moved = rw (concat-append p.sent (payload ∷ []), ← e) (simp (append_assoc, append-nil))

  forward-HasStream :
      (p : Pump) (events : List Event) → HasStream (stream p events) (forward pass send p events)
  unfolding forward take_all
  forward-HasStream p events = elim (Bool-cases (is_http p.protocol_kind)) [
    | inl k ↦ elim (Option-cases (try_take_http_message p.buffer)) [
      | inl n ↦ elim (Bool-cases (ltb 8192 (length p.buffer))) [
        | inl b ↦
            rw (k, forward, n, b)
              (patch_and_send-HasStream p events p.buffer [] (append-nil p.buffer))
        | inr b ↦ rw (k, forward, n, b) refl
      ]
      | inr (t, m) ↦
          rw (k, forward, m)
            (patch_and_send-HasStream p events t.0 t.1 (try_take-conserves p.buffer m))
    ]
    | inr k ↦ elim (Bool-cases (is_empty p.buffer)) [
      | inl b ↦ rw (k, forward, b) refl
      | inr b ↦
          rw (k, forward, b) (patch_and_send-HasStream p events p.buffer [] (append-nil p.buffer))
    ]
  ]

  filled-HasStream :
      (p : Pump) (events : List Event) → HasStream (stream p events) (filled pass send p events)
  unfolding filled
  filled-HasStream p events = rw (← stream-decide p events) (forward-HasStream (decide p) events)

  round_full :
      (p : Pump) (events : List Event)
      → is_empty p.buffer ≡ false
      → HasStream (stream p events) (round pass send p events)
  unfolding round
  round_full p events b = rw (b, round) (filled-HasStream p events)

  round_empty :
      (p : Pump) (events : List Event)
      → is_empty p.buffer ≡ true
      → HasStream (stream p events) (round pass send p events)
  unfolding round append
  round_empty p [] b = rw (b, round) refl
  round_empty p (received chunk ∷ events) b =
      rw (b, round, ← append_assoc p.buffer chunk (pending events))
        (filled-HasStream (record p { buffer = p.buffer ++ chunk }) events)
  round_empty p (closed ∷ events) b = rw (b, round) refl
  round_empty p (retry ∷ events) b = rw (b, round) refl
  round_empty p (failed ∷ events) b = rw (b, round) refl

  pub round-HasStream :
      (p : Pump) (events : List Event) → HasStream (stream p events) (round pass send p events)
  round-HasStream p events = elim (Bool-cases (is_empty p.buffer)) [
    | inl b ↦ round_empty p events b
    | inr b ↦ round_full p events b
  ]

  pub stream-flush :
      (p : Pump) (events : List Event) → stream (flush pass send p) events ≡ stream p events
  unfolding flush
  stream-flush p events = elim (Bool-cases (is_empty p.buffer)) [
    | inl b ↦ rw (flush, b)
    | inr b ↦ rw (flush, b, concat-append p.sent (p.buffer ∷ [])) (simp (append_assoc, append-nil))
  ]

  -- The stream as a run leaves it.
  left : ℕ → Pump → List Event → Bytes
  left rounds p events = stream (run pass send rounds p events).0 (run pass send rounds p events).1

  left-round :
      (rounds : ℕ) (p : Pump) (events : List Event)
      → ((q : Pump) (es : List Event) → left rounds q es ≡ stream q es)
      → (r : Round) → round pass send p events ≡ r
      → HasStream (stream p events) r
      → left (suc rounds) p events ≡ stream p events
  unfolding left run
  left-round rounds p events ih (continue q es) e h = rw (run, e) (ih q es ∙ h)
  left-round rounds p events ih (break q es) e h = rw (run, e) (stream-flush q es ∙ h)
  left-round rounds p events ih (return q es) e h = rw (run, e) h
  left-round rounds p events ih (blocked q) e h = rw (run, e) h

  left-stream :
      (rounds : ℕ) (p : Pump) (events : List Event) → left rounds p events ≡ stream p events
  left-stream zero p events = unfold left run in refl
  left-stream (suc rounds) p events =
      left-round rounds p events (left-stream rounds) (round pass send p events) refl
        (round-HasStream p events)

-- A pump that changes nothing loses, repeats and reorders nothing: after any number of rounds the
-- bytes it has sent, those it holds and those still to come are, in this order, the stream that there
-- was, whatever the sends return and wherever the messages are cut.
pub run-conserves :
    (send : List Bytes → Bytes → Bool) (rounds : ℕ) (p : Pump) (events : List Event)
    → stream (run pass send rounds p events).0 (run pass send rounds p events).1 ≡ stream p events
unfolding left
run-conserves send rounds p events = left-stream send rounds p events
