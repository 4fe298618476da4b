-- ===== src/Transport/Duplex.antt =====
-- src/transport/tcp_proxy_server.cpp: the two threads of `handle_client`, each of which runs a pump and
-- then `shutdown_socket_pair`. A step is one round of one of the two pumps, and the steps come in any
-- order; the end of a pump and the shutdown behind it are one step. Behind the shutdown of both sockets `recv` gives no more bytes and `send` fails.
pub mod Conserve
pub mod Forwards
pub mod Shuts
pub mod Silent
use network_proxy.Prelude.{
  if◌then◌else◌, is_empty, Bytes, ◌≡◌, Bool, true, false, ◌||◌, List, [], ◌∷◌,
}
use network_proxy.Protocol.Detector.{ProtocolKind}
use network_proxy.Transport.Pump.{
  Event, closed, Pump, Round, continue, break, return, blocked, round, flush, start,
}

-- One thread: its pump, what its `recv` will give, the payloads that `send_all` has taken, and whether
-- the pump still runs.
pub record Side : Type 0 where
  pub pump : Pump
  pub events : List Event
  pub delivered : List Bytes
  pub running : Bool

pub record Duplex : Type 0 where
  pub outbound : Side
  pub inbound : Side
  pub shut : Bool

-- What a direction's patch changes, and the results of its `send_all`.
pub record Direction : Type 0 where
  pub patch : ProtocolKind → Bytes → Bytes
  pub send : List Bytes → Bytes → Bool

abbrev pub seen : Bool → List Event → List Event
seen true events = closed ∷ events
seen false events = events

abbrev pub usable : Bool → (List Bytes → Bytes → Bool) → List Bytes → Bytes → Bool
usable true send sent wire = false
usable false send sent wire = send sent wire

-- The thread behind a round, and whether its pump is over.
unfoldable pub settle :
    (ProtocolKind → Bytes → Bytes) → (List Bytes → Bytes → Bool) → Side → Round → Side × Bool
settle patch send side (continue p events) =
    (record side { pump = p; events = events; delivered = p.sent }, false)
settle patch send side (return p events) =
    (record side { pump = p; events = events; running = false }, true)
settle patch send side (blocked p) = (side, false)
settle patch send side (break p events) = (
  record {
    pump = flush patch send p;
    events = events;
    delivered =
        if is_empty p.buffer || send p.sent (patch p.protocol_kind p.buffer)
        then (flush patch send p).sent
        else side.delivered;
    running = false;
  },
  true,
)

unfoldable pub advance : Direction → Bool → Side → Side × Bool
unfolding settle
advance way shut side =
    settle way.patch (usable shut way.send) side
      (round way.patch (usable shut way.send) side.pump (seen shut side.events))

abbrev pub run_outbound : Direction → Duplex → Duplex
run_outbound way d =
    let (side, over) = advance way d.shut d.outbound in
    record d { outbound = side; shut = d.shut || over }

abbrev pub run_inbound : Direction → Duplex → Duplex
run_inbound way d =
    let (side, over) = advance way d.shut d.inbound in
    record d { inbound = side; shut = d.shut || over }

pub data Step (out into : Direction) : Duplex → Duplex → Type 0 where
  outbound_runs : {d : Duplex} → d.outbound.running ≡ true → Step out into d (run_outbound out d)
  inbound_runs : {d : Duplex} → d.inbound.running ≡ true → Step out into d (run_inbound into d)

pub data Steps (out into : Direction) (d : Duplex) : Duplex → Type 0 where
  no_step : Steps out into d d
  then_step : {e f : Duplex} → Steps out into d e → Step out into e f → Steps out into d f

abbrev pub side_of : Bytes → List Event → Side
side_of first_payload events = record {
  pump = start first_payload;
  events = events;
  delivered = [];
  running = true;
}

-- The two threads as they start.
abbrev pub duplex : Bytes → List Event → List Event → Duplex
duplex first_payload from_client from_upstream = record {
  outbound = side_of first_payload from_client;
  inbound = side_of [] from_upstream;
  shut = false;
}
