-- ===== src/Transport/Duplex/Conserve.antt =====
-- Both directions of a connection keep their streams.
use network_proxy.Prelude.{Bytes, ◌≡◌, refl, ◌∙◌, Bool, true, false, List}
use network_proxy.Transport.Pump.{Event, Pump, Round, continue, break, return, blocked}
use network_proxy.Transport.Pump.Conserve.{stream, pass, HasStream, round-HasStream, stream-flush}
use network_proxy.Transport.Duplex.{
  Side, Duplex, Direction, seen, usable, settle, advance, Step, outbound_runs, inbound_runs, Steps,
  no_step, then_step,
}

-- A direction that changes nothing.
abbrev pub passing : (List Bytes → Bytes → Bool) → Direction
passing send = record { patch = pass; send = send }

abbrev pub stream_of : Side → Bytes
stream_of side = stream side.pump side.events

stream-seen :
    (shut : Bool) (p : Pump) (events : List Event) → stream p (seen shut events) ≡ stream p events
stream-seen true p events = refl
stream-seen false p events = refl

stream-settle :
    (send : List Bytes → Bytes → Bool) (side : Side) (r : Round)
    → HasStream (stream_of side) r
    → stream_of (settle pass send side r).0 ≡ stream_of side
unfolding settle
stream-settle send side (continue p events) h = h
stream-settle send side (return p events) h = h
stream-settle send side (blocked p) h = refl
stream-settle send side (break p events) h = stream-flush send p events ∙ h

stream-advance :
    (send : List Bytes → Bytes → Bool) (shut : Bool) (side : Side)
    → stream_of (advance (passing send) shut side).0 ≡ stream_of side
unfolding advance
stream-advance send shut side = stream-settle (usable shut send) side _ (
    rw (stream-seen shut side.pump side.events) at
      (round-HasStream (usable shut send) side.pump (seen shut side.events)))

stream-Step :
    (send_outbound send_inbound : List Bytes → Bytes → Bool) {d e : Duplex}
    → Step (passing send_outbound) (passing send_inbound) d e
    → (stream_of e.outbound ≡ stream_of d.outbound) × (stream_of e.inbound ≡ stream_of d.inbound)
stream-Step send_outbound send_inbound {d} (outbound_runs r) =
    (stream-advance send_outbound d.shut d.outbound, refl)
stream-Step send_outbound send_inbound {d} (inbound_runs r) =
    (refl, stream-advance send_inbound d.shut d.inbound)

-- However the rounds of the two pumps of a connection are interleaved, and whenever one of them ends
-- and both sockets are shut down: where nothing is patched, in each direction what was handed to
-- `send_all`, what is held and what is to come is the stream that there was.
pub stream-Steps :
    (send_outbound send_inbound : List Bytes → Bytes → Bool) {d e : Duplex}
    → Steps (passing send_outbound) (passing send_inbound) d e
    → (stream_of e.outbound ≡ stream_of d.outbound) × (stream_of e.inbound ≡ stream_of d.inbound)
stream-Steps send_outbound send_inbound no_step = (refl, refl)
stream-Steps send_outbound send_inbound (then_step s t) =
    let (a, b) = stream-Steps send_outbound send_inbound s in
    let (c, f) = stream-Step send_outbound send_inbound t in (c ∙ a, f ∙ b)
