-- ===== src/Transport/Datagram.antt =====
-- src/transport/udp_proxy_server.cpp: the loop of `serve`, one datagram a round. What arrives on the
-- sockets, the clock and the results of `sendto` are the turns of a run; `resolve` stands for
-- `resolve_endpoint`, and `ip_text` for `endpoint_ip_to_string`.
pub mod Relay
pub mod Serve
pub mod Captured
use network_proxy.Prelude.{
  ◌==◌, if◌then◌else◌, Bytes, codes, ℕ, Bool, not, ◌&&◌, Option, none, some, List, [], ◌∷◌, ◌++◌,
}
use network_proxy.Config.Types.{AppConfig}
use network_proxy.Capture.FlowTable.{FlowKey, Table, try_get_upstream}
use network_proxy.Protocol.Detector.{detect_protocol_kind}
use network_proxy.Protocol.Manager.{ProtocolManager, patch_payload}
use network_proxy.Patch.Engine.{PatchEngine, apply_transport_patch}
use network_proxy.Rules.Types.{empty_context}
use network_proxy.Tls.Plaintext.{empty_protocol_context}
use network_proxy.Transport.Endpoint.{SockAddr, af_inet6, endpoint_port}

-- The members of the class that a round reads, and whether there is an IPv6 socket.
pub record UdpProxyServer : Type 0 where
  pub config : AppConfig
  pub patch_engine : PatchEngine
  pub protocol_manager : ProtocolManager
  pub upstream_v6_valid : Bool

-- The block that patches a payload of one direction.
unfoldable pub patch_datagram : UdpProxyServer → Bytes → Bytes → ℕ → Bytes → Bytes
patch_datagram server direction upstream_host upstream_port payload =
    let (payload', structured) =
      patch_payload server.protocol_manager payload (record empty_protocol_context {
        direction = direction;
        protocol_kind = detect_protocol_kind payload;
        host = upstream_host;
        remote_port = upstream_port;
      }) in
    if structured
    then payload'
    else (apply_transport_patch server.patch_engine payload' (codes "udp") direction (
        some (record empty_context {
          protocol = codes "udp";
          direction = direction;
          host = upstream_host;
          remote_port = upstream_port;
        }))).0

-- What waits on each upstream socket is a queue, in which `none` is an error that `recvfrom` reports.
pub record Udp : Type 0 where
  pub flow_table : Table
  pub waiting_v4 : List (Option Bytes)
  pub waiting_v6 : List (Option Bytes)
  pub to_upstream : List (SockAddr × Bytes)
  pub to_client : List (SockAddr × Bytes)

-- A round of the loop: what `recvfrom` gives (`none` is a timeout or an error), whether the datagram
-- can be sent on, and what arrives on the upstream sockets before their `recvfrom` ends.
pub record Turn : Type 0 where
  pub now : ℕ
  pub received : Option (SockAddr × Bytes)
  pub upstream_sends : Bool
  pub arrived_v4 : List (Option Bytes)
  pub arrived_v6 : List (Option Bytes)

abbrev pub arrive : Turn → Udp → Udp
arrive turn u = record u {
  waiting_v4 = u.waiting_v4 ++ turn.arrived_v4;
  waiting_v6 = u.waiting_v6 ++ turn.arrived_v6;
}

-- `recvfrom` on one of the two upstream sockets; an empty queue is a timeout.
unfoldable pub receive : Bool → Udp → Option Bytes × Udp
receive is_v6 u =
    if is_v6
    then elim u.waiting_v6 [
      | [] ↦ (none, u)
      | answer ∷ rest ↦ (answer, record u { waiting_v6 = rest })
    ]
    else elim u.waiting_v4 [
      | [] ↦ (none, u)
      | answer ∷ rest ↦ (answer, record u { waiting_v4 = rest })
    ]

-- The flow's own target, or else the configured one.
unfoldable pub choose_upstream : AppConfig → Option (Bytes × ℕ) → Bytes × ℕ
choose_upstream config mapped_target = elim mapped_target [
  | none ↦ (config.udp_upstream_host, config.udp_upstream_port)
  | some target ↦ target
]

-- From the answer of the upstream on.
unfoldable pub reply_to : UdpProxyServer → SockAddr → Bytes → ℕ → Option Bytes × Udp → Udp
reply_to server client host port (none, u) = u
reply_to server client host port (some payload, u) = record u {
  to_client =
      u.to_client ++ (client, patch_datagram server (codes "inbound") host port payload) ∷ [];
}

-- From the patched payload on.
unfoldable pub exchange :
    UdpProxyServer → Turn → SockAddr → Bytes → ℕ → SockAddr → Bytes → Udp → Udp
unfolding receive reply_to
exchange server turn client host port endpoint wire u =
    let is_v6 = endpoint.sa_family == af_inet6 in
    if is_v6 && not server.upstream_v6_valid
    then u
    else if not turn.upstream_sends
    then u
    else reply_to server client host port
        (receive is_v6 (record u { to_upstream = u.to_upstream ++ (endpoint, wire) ∷ [] }))

abbrev pub client_key : (SockAddr → Bytes) → SockAddr → FlowKey
client_key ip_text client = record {
  protocol = 17;
  source_ip = ip_text client;
  source_port = endpoint_port client;
}

module _ (resolve : Bytes → ℕ → Option SockAddr) (ip_text : SockAddr → Bytes) where
  -- From the target on.
  unfoldable pub forward_to : UdpProxyServer → Turn → SockAddr → Bytes → Bytes × ℕ → Udp → Udp
  unfolding patch_datagram exchange
  forward_to server turn client payload (host, port) u = elim (resolve host port) [
    | none ↦ u
    | some endpoint ↦
        exchange server turn client host port endpoint
          (patch_datagram server (codes "outbound") host port payload) u
  ]

  unfoldable pub round : UdpProxyServer → Turn → Udp → Udp
  unfolding forward_to choose_upstream
  round server turn u = elim turn.received [
    | none ↦ arrive turn u
    | some (client, payload) ↦
        let (mapped_target, flow_table) =
          try_get_upstream turn.now (client_key ip_text client) u.flow_table in
        forward_to server turn client payload (choose_upstream server.config mapped_target)
          (arrive turn (record u { flow_table = flow_table }))
  ]

  -- The loop, until `stop_requested`.
  unfoldable pub serve_loop : UdpProxyServer → List Turn → Udp → Udp
  unfolding round
  serve_loop server [] u = u
  serve_loop server (turn ∷ turns) u = serve_loop server turns (round server turn u)
