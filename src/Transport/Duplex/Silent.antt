-- ===== src/Transport/Duplex/Silent.antt =====
-- Nothing is delivered once the sockets have been shut down.
use network_proxy.Prelude.{
  ltb, Bool-cases, Option-cases, if_cases, length, is_empty, Bytes, ◌≡◌, refl, sym, ap, ◌∙◌, ◌⊎◌,
  inl, inr, Bool, true, false, List, [], ◌∷◌, ◌++◌, arith,
}
use network_proxy.Protocol.Adapter.{is_http}
use network_proxy.Protocol.Detector.{ProtocolKind}
use network_proxy.Transport.Pump.{
  Event, received, closed, retry, failed, Pump, Round, continue, break, return, blocked,
  patch_and_send, decide, forward, filled, round, flush,
}
use network_proxy.Transport.Reassembly.{try_take_http_message, take_all, append}
use network_proxy.Transport.Duplex.Shuts.{HasEnded, Steps-shuts}
use network_proxy.Transport.Duplex.{
  Side, Duplex, Direction, seen, usable, settle, advance, Step, outbound_runs, inbound_runs, Steps,
  no_step, then_step, duplex,
}

-- No payload has gone out in the round, where the pump goes on behind it or flushes.
abbrev HasSent : List Bytes → Round → Type 0
HasSent sent (continue p events) = p.sent ≡ sent
HasSent sent (break p events) = p.sent ≡ sent
HasSent sent (return p events) = Unit
HasSent sent (blocked p) = Unit

HasSent-≡ : (a b : List Bytes) (r : Round) → a ≡ b → HasSent a r → HasSent b r
HasSent-≡ a b r e h = rw e at h

module _ (patch : ProtocolKind → Bytes → Bytes) (send : List Bytes → Bytes → Bool)
    (fails : (sent : List Bytes) (wire : Bytes) → send sent wire ≡ false) where
  patch_and_send-HasSent :
      (p : Pump) (events : List Event) (payload buffer : Bytes) (sent : List Bytes)
      → HasSent sent (patch_and_send patch send p events payload buffer)
  unfolding patch_and_send
  patch_and_send-HasSent p events payload buffer sent = rw (patch_and_send, fails) tt

  forward-HasSent : (p : Pump) (events : List Event) → HasSent p.sent (forward patch send p events)
  unfolding forward
  forward-HasSent p events =
      if_cases (HasSent p.sent) (is_http p.protocol_kind) _ _
        (λ _. elim (Option-cases (try_take_http_message p.buffer)) [
          | inl n ↦ rw n (
              if_cases (HasSent p.sent) (ltb 8192 (length p.buffer)) _ _
                (λ _.
                  patch_and_send-HasSent p events (take_all p.buffer).0 (take_all p.buffer).1
                    p.sent)
                λ _. refl)
          | inr ((message, rest), m) ↦ rw m (patch_and_send-HasSent p events message rest p.sent)
        ])
        λ _.
          if_cases (HasSent p.sent) (is_empty p.buffer) _ _ (λ _. refl)
            λ _. patch_and_send-HasSent p events (take_all p.buffer).0 (take_all p.buffer).1 p.sent

  filled-HasSent : (p : Pump) (events : List Event) → HasSent p.sent (filled patch send p events)
  unfolding filled decide
  filled-HasSent p events = rw (sent-decide p) at (forward-HasSent (decide p) events)
    where
      sent-decide : (q : Pump) → (decide q).sent ≡ q.sent
      sent-decide q = elim (Bool-cases q.protocol_decided) [
        | inl b ↦ rw (decide, b)
        | inr b ↦ rw (decide, b)
      ]

  read-HasSent :
      (p : Pump) (events : List Event)
      → is_empty p.buffer ≡ true
      → HasSent p.sent (round patch send p events)
  unfolding round append
  read-HasSent p [] b = rw (round, b) tt
  read-HasSent p (received chunk ∷ events) b =
      rw (round, b) (filled-HasSent (record p { buffer = p.buffer ++ chunk }) events)
  read-HasSent p (closed ∷ events) b = rw (round, b) refl
  read-HasSent p (retry ∷ events) b = rw (round, b) refl
  read-HasSent p (failed ∷ events) b = rw (round, b) refl

  round-HasSent : (p : Pump) (events : List Event) → HasSent p.sent (round patch send p events)
  unfolding round
  round-HasSent p events = elim (Bool-cases (is_empty p.buffer)) [
    | inl b ↦ read-HasSent p events b
    | inr b ↦ rw (round, b) (filled-HasSent p events)
  ]

  settle-delivered :
      (side : Side) (r : Round)
      → HasSent side.delivered r
      → (settle patch send side r).0.delivered ≡ side.delivered
  unfolding settle flush
  settle-delivered side (continue p events) h = h
  settle-delivered side (return p events) h = refl
  settle-delivered side (blocked p) h = refl
  settle-delivered side (break p events) h = elim (Bool-cases (is_empty p.buffer)) [
    | inl b ↦ rw (settle, flush, b) h
    | inr b ↦ rw (settle, b, fails)
  ]

-- While its pump runs, what a thread has delivered is all that its pump has sent.
IsCaughtUp : Side → Type 0
IsCaughtUp side = (side.running ≡ false) ⊎ (side.delivered ≡ side.pump.sent)

settle-IsCaughtUp :
    (patch : ProtocolKind → Bytes → Bytes) (send : List Bytes → Bytes → Bool) (side : Side)
    (r : Round)
    → IsCaughtUp side
    → IsCaughtUp (settle patch send side r).0
unfolding settle IsCaughtUp
settle-IsCaughtUp patch send side (continue p events) h = inr refl
settle-IsCaughtUp patch send side (return p events) h = inl refl
settle-IsCaughtUp patch send side (blocked p) h = h
settle-IsCaughtUp patch send side (break p events) h = inl refl

advance-IsCaughtUp :
    (way : Direction) (shut : Bool) (side : Side)
    → IsCaughtUp side
    → IsCaughtUp (advance way shut side).0
unfolding advance
advance-IsCaughtUp way shut side h =
    settle-IsCaughtUp way.patch (usable shut way.send) side
      (round way.patch (usable shut way.send) side.pump (seen shut side.events)) h

advance-delivered :
    (way : Direction) (side : Side)
    → IsCaughtUp side
    → side.running ≡ true
    → (advance way true side).0.delivered ≡ side.delivered
unfolding advance IsCaughtUp
advance-delivered way side h r = elim h [
  | inl n ↦ absurd (cc (n, r))
  | inr e ↦
      settle-delivered way.patch (usable true way.send) (λ sent wire. refl) side
        (round way.patch (usable true way.send) side.pump (seen true side.events))
        (HasSent-≡ side.pump.sent side.delivered _ (sym e) (
          round-HasSent way.patch (usable true way.send) (λ sent wire. refl) side.pump
            (seen true side.events)))
]

module _ (out into : Direction) where
  AreCaughtUp : Duplex → Type 0
  AreCaughtUp d = IsCaughtUp d.outbound × IsCaughtUp d.inbound

  Step-AreCaughtUp : {d e : Duplex} → Step out into d e → AreCaughtUp d → AreCaughtUp e
  unfolding AreCaughtUp
  Step-AreCaughtUp {d} (outbound_runs r) (a, b) = (advance-IsCaughtUp out d.shut d.outbound a, b)
  Step-AreCaughtUp {d} (inbound_runs r) (a, b) = (a, advance-IsCaughtUp into d.shut d.inbound b)

  Steps-AreCaughtUp : {d e : Duplex} → Steps out into d e → AreCaughtUp d → AreCaughtUp e
  Steps-AreCaughtUp no_step a = a
  Steps-AreCaughtUp (then_step s t) a = Step-AreCaughtUp t (Steps-AreCaughtUp s a)

  -- From a state with both sockets shut down.
  AreSilent : Duplex → Duplex → Type 0
  AreSilent d e =
      (e.shut ≡ true)
      × (e.outbound.delivered ≡ d.outbound.delivered)
      × (e.inbound.delivered ≡ d.inbound.delivered)

  Step-AreSilent :
      (d : Duplex) {e f : Duplex}
      → Step out into e f
      → AreCaughtUp e
      → AreSilent d e
      → AreSilent d f
  unfolding AreCaughtUp AreSilent
  Step-AreSilent d {e} (outbound_runs r) (a, b) (s, x, y) = (
    ground (arith, s),
    ap (λ shut. (advance out shut e.outbound).0.delivered) s
        ∙ advance-delivered out e.outbound a r
        ∙ x,
    y,
  )
  Step-AreSilent d {e} (inbound_runs r) (a, b) (s, x, y) = (
    ground (arith, s),
    x,
    ap (λ shut. (advance into shut e.inbound).0.delivered) s
        ∙ advance-delivered into e.inbound b r
        ∙ y,
  )

  Steps-AreSilent :
      {d e : Duplex} → Steps out into d e → AreCaughtUp d → d.shut ≡ true → AreSilent d e
  unfolding AreSilent
  Steps-AreSilent {d} no_step a s = (s, refl, refl)
  Steps-AreSilent {d} (then_step s t) a h =
      Step-AreSilent d t (Steps-AreCaughtUp s a) (Steps-AreSilent s a h)

-- Once one of the two pumps of a connection has ended, in whichever way (the client has closed its
-- half, or a send has failed), both sockets are shut down, and no payload is delivered in either
-- direction any more, whatever is still to come and however the rounds go on.
pub Steps-silent :
    (out into : Direction) (first_payload : Bytes) (from_client from_upstream : List Event)
    (d e : Duplex)
    → Steps out into (duplex first_payload from_client from_upstream) d
    → HasEnded d
    → Steps out into d e
    → (d.shut ≡ true)
      × (e.outbound.delivered ≡ d.outbound.delivered)
      × (e.inbound.delivered ≡ d.inbound.delivered)
unfolding AreSilent AreCaughtUp IsCaughtUp
Steps-silent out into first_payload from_client from_upstream d e r n t =
    let s : d.shut ≡ true =
      Steps-shuts out into r (λ m. elim m [ inl b ↦ absurd (cc b) | inr b ↦ absurd (cc b) ]) n in
    let (_, x, y) =
      Steps-AreSilent out into t (Steps-AreCaughtUp out into r (inr refl, inr refl)) s in
    (s, x, y)
