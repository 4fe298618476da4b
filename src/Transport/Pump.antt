-- ===== src/Transport/Pump.antt =====
-- src/transport/tcp_proxy_server.cpp: `pump`, the loop that forwards one direction of a connection.
-- What `recv` returns is a list of events, and the results of `send_all` are a parameter.
pub mod Conserve
pub mod Transparent
pub mod Stall
pub mod Forwards
use network_proxy.Prelude.{
  ltb, leb, if◌then◌else◌, length, is_empty, Bytes, codes, ℕ, zero, suc, Bool, true, false, not,
  none, some, List, [], ◌∷◌, ◌++◌,
}
use network_proxy.Protocol.Detector.{ProtocolKind, unknown, detect_protocol_kind}
use network_proxy.Protocol.Adapter.{is_http}
use network_proxy.Protocol.Manager.{ProtocolManager, patch_payload}
use network_proxy.Patch.Engine.{PatchEngine, apply_transport_patch}
use network_proxy.Rules.Types.{empty_context}
use network_proxy.Tls.Plaintext.{empty_protocol_context, patch_https_plaintext_http}
use network_proxy.Transport.Reassembly.{append, take_all, try_take_http_message}

-- What the closure `pump` captures, and its argument `direction`.
pub record Session : Type 0 where
  pub manager : ProtocolManager
  pub engine : PatchEngine
  pub force_https_plaintext_patch : Bool
  pub direction : Bytes
  pub upstream_host : Bytes
  pub upstream_port : ℕ

-- What `patch_and_send` sends for a payload.
unfoldable pub patch_chunk : Session → ProtocolKind → Bytes → Bytes
patch_chunk s kind payload =
    let (payload', structured_patched) =
      patch_payload s.manager payload (record empty_protocol_context {
        direction = s.direction;
        protocol_kind = kind;
        host = s.upstream_host;
        remote_port = s.upstream_port;
      }) in
    if s.force_https_plaintext_patch
    then (patch_https_plaintext_http s.manager s.engine payload s.direction).0
    else if structured_patched
    then payload'
    else (apply_transport_patch s.engine payload' (codes "tcp") s.direction (
        some (record empty_context {
          protocol = codes "tcp";
          direction = s.direction;
          host = s.upstream_host;
          remote_port = s.upstream_port;
        }))).0

-- The results of `recv`: some bytes, 0, an error that the loop retries on, another error.
pub data Event : Type 0 where
  received : Bytes → Event
  closed retry failed : Event

pub record Pump : Type 0 where
  pub buffer : Bytes
  pub protocol_decided : Bool
  pub protocol_kind : ProtocolKind
  pub sent : List Bytes

-- How a round of the loop ends: `continue`, `break`, `return`, or inside `recv`, which blocks.
pub data Round : Type 0 where
  continue : Pump → List Event → Round
  break : Pump → List Event → Round
  return : Pump → List Event → Round
  blocked : Pump → Round

-- `if (!protocol_decided) { … }`
unfoldable pub decide : Pump → Pump
decide p =
    let kind = detect_protocol_kind p.buffer in
    if p.protocol_decided then p else record p {
      protocol_kind = kind;
      protocol_decided = elim kind [ unknown ↦ leb 32 (length p.buffer) | _ ↦ true ];
    }

-- `patch` is the change that `patch_and_send` makes, and `send` is the result of its `send_all`,
-- given what was sent before.
module _ (patch : ProtocolKind → Bytes → Bytes) (send : List Bytes → Bytes → Bool) where
  -- The payload goes out, and the buffer is what is left; a failed send ends the pump.
  unfoldable pub patch_and_send : Pump → List Event → Bytes → Bytes → Round
  patch_and_send p events payload buffer =
      let wire = patch p.protocol_kind payload in
      let p' : Pump = record p { buffer = buffer; sent = p.sent ++ wire ∷ [] } in
      if send p.sent wire then continue p' events else return p' events

  -- The round from the point where the buffer is filled.
  unfoldable pub forward : Pump → List Event → Round
  forward p events =
      if is_http p.protocol_kind
      then elim (try_take_http_message p.buffer) [
        | some (message, rest) ↦ patch_and_send p events message rest
        | none ↦
            if ltb 8192 (length p.buffer)
            then patch_and_send p events (take_all p.buffer).0 (take_all p.buffer).1
            else continue p events
      ]
      else if is_empty p.buffer
      then continue p events
      else patch_and_send p events (take_all p.buffer).0 (take_all p.buffer).1

  unfoldable pub filled : Pump → List Event → Round
  filled p events = forward (decide p) events

  unfoldable pub round : Pump → List Event → Round
  round p events = if not (is_empty p.buffer) then filled p events else elim events [
    | [] ↦ blocked p
    | received chunk ∷ events' ↦ filled (record p { buffer = append p.buffer chunk }) events'
    | closed ∷ events' ↦ break p events'
    | retry ∷ events' ↦ continue p events'
    | failed ∷ events' ↦ break p events'
  ]

  -- Behind the loop.
  unfoldable pub flush : Pump → Pump
  flush p =
      if is_empty p.buffer
      then p
      else record p { buffer = []; sent = p.sent ++ patch p.protocol_kind p.buffer ∷ [] }

  -- A number of rounds, with the flush behind a `break`; the pump, and the events not yet read.
  unfoldable pub run : ℕ → Pump → List Event → Pump × List Event
  run zero p events = (p, events)
  run (suc rounds) p events = elim (round p events) [
    | continue p' events' ↦ run rounds p' events'
    | break p' events' ↦ (flush p', events')
    | return p' events' ↦ (p', events')
    | blocked p' ↦ (p', [])
  ]

abbrev pub start : Bytes → Pump
start first_payload = record {
  buffer = first_payload;
  protocol_decided = false;
  protocol_kind = unknown;
  sent = [];
}
