-- ===== src/Transport/Duplex/Shuts.antt =====
-- Behind the end of a pump both sockets are shut down.
use network_proxy.Prelude.{Bytes, ◌≡◌, refl, ◌⊎◌, inl, inr, Bool, true, false, List, arith}
use network_proxy.Protocol.Detector.{ProtocolKind}
use network_proxy.Transport.Pump.{Round, continue, break, return, blocked, round}
use network_proxy.Transport.Duplex.{
  Side, Duplex, Direction, seen, usable, settle, advance, Step, outbound_runs, inbound_runs, Steps,
  no_step, then_step,
}

-- A pump that runs is over behind a round exactly where the round tells so.
settle-running :
    (patch : ProtocolKind → Bytes → Bytes) (send : List Bytes → Bytes → Bool) (side : Side)
    (r : Round)
    → side.running ≡ true
    → (settle patch send side r).0.running ≡ false
    → (settle patch send side r).1 ≡ true
unfolding settle
settle-running patch send side (continue p events) h n = absurd (cc (h, n))
settle-running patch send side (return p events) h n = refl
settle-running patch send side (blocked p) h n = absurd (cc (h, n))
settle-running patch send side (break p events) h n = refl

-- One of the two pumps has ended.
abbrev pub HasEnded : Duplex → Type 0
HasEnded d = (d.outbound.running ≡ false) ⊎ (d.inbound.running ≡ false)

advance-running :
    (way : Direction) (shut : Bool) (side : Side)
    → side.running ≡ true
    → (advance way shut side).0.running ≡ false
    → (advance way shut side).1 ≡ true
unfolding advance
advance-running way shut side h =
    settle-running way.patch (usable shut way.send) side
      (round way.patch (usable shut way.send) side.pump (seen shut side.events)) h

Step-shuts :
    (out into : Direction) {d e : Duplex}
    → Step out into d e
    → (HasEnded d → d.shut ≡ true)
    → HasEnded e
    → e.shut ≡ true
Step-shuts out into {d} (outbound_runs r) h (inl n) =
    ground (arith, advance-running out d.shut d.outbound r n)
Step-shuts out into {d} (outbound_runs r) h (inr n) = ground (arith, h (inr n))
Step-shuts out into {d} (inbound_runs r) h (inl n) = ground (arith, h (inl n))
Step-shuts out into {d} (inbound_runs r) h (inr n) =
    ground (arith, advance-running into d.shut d.inbound r n)

-- The thread of a pump that has ended has shut both sockets down.
pub Steps-shuts :
    (out into : Direction) {d e : Duplex}
    → Steps out into d e
    → (HasEnded d → d.shut ≡ true)
    → HasEnded e
    → e.shut ≡ true
Steps-shuts out into no_step h n = h n
Steps-shuts out into (then_step s t) h n = Step-shuts out into t (Steps-shuts out into s h) n
