-- ===== src/Transport/Session.antt =====
-- src/transport/tcp_proxy_server.cpp: `handle_client` around its two pumps. What the system answers is
-- one record; `resolve` stands for `resolve_endpoint`, and `ip_text` for `endpoint_ip_to_string`.
pub mod Captured
pub mod Closes
pub mod Early
pub mod Transparent
pub mod Serve
use network_proxy.Prelude.{
  if◌then◌else◌, is_empty, Bytes, codes, ℕ, Bool, true, false, not, ◌&&◌, Option, none, some, List,
  [], ◌∷◌,
}
use network_proxy.Common.Handles.{close_socket_if_valid, open_socket}
use network_proxy.Config.Types.{AppConfig}
use network_proxy.Capture.FlowTable.{FlowKey, Table, try_get_upstream}
use network_proxy.Protocol.Manager.{ProtocolManager}
use network_proxy.Patch.Engine.{PatchEngine}
use network_proxy.Transport.Endpoint.{SockAddr, endpoint_port}
use network_proxy.Transport.Connect.{parse_connect_authority}
use network_proxy.Transport.Pump.{Session}

pub record TcpProxyServer : Type 0 where
  pub config : AppConfig
  pub patch_engine : PatchEngine
  pub protocol_manager : ProtocolManager

-- The clock, the client's address, what the first `recv` gives (`none` where it gives no bytes), and
-- the answers of `socket`, of `connect` and of the `send_all` to the client.
pub record Answers : Type 0 where
  pub now : ℕ
  pub client_endpoint : SockAddr
  pub initial_received : Option Bytes
  pub upstream_socket : Option ℕ
  pub connects : Bool
  pub sends : Bool

-- What becomes of a connection: it ends, or `run_tls_mitm_session` has it with this target, or two
-- pumps run, the first with the bytes that it starts from.
pub data Course : Type 0 where
  ended : Course
  intercepted : Bytes → ℕ → Course
  pumped : Session → Session → Bytes → Course

-- The course, what the server itself sends to the client, the hosts that
-- `ensure_leaf_certificate_for_host` is called with here, the address that `connect` is called with,
-- and the sockets open at the end.
pub record Handled : Type 0 where
  pub course : Course
  pub certificates : List Bytes
  pub greeting : List Bytes
  pub dialled : Option SockAddr
  pub flow_table : Table
  pub opened : List ℕ

abbrev pub connect_ok : Bytes
connect_ok = codes "HTTP/1.1 200 Connection Established\r\nProxy-Agent: network_proxy\r\n\r\n"

-- The target of a connection, and whether CONNECT gives it.
unfoldable pub choose_target : AppConfig → Option (Bytes × ℕ) → Bytes → (Bytes × ℕ) × Bool
choose_target config mapped_target initial_payload =
    let fallback : Bytes × ℕ = elim mapped_target [
      | none ↦ (config.tcp_upstream_host, config.tcp_upstream_port)
      | some target ↦ target
    ] in
    if is_empty initial_payload
    then (fallback, false)
    else elim (parse_connect_authority initial_payload) [
      | none ↦ (fallback, false)
      | some target ↦ (target, true)
    ]

-- What a pump captures.
abbrev pub session_of : TcpProxyServer → Bool → Bytes → ℕ → Bytes → Session
session_of server force_https_plaintext_patch upstream_host upstream_port direction = record {
  manager = server.protocol_manager;
  engine = server.patch_engine;
  force_https_plaintext_patch = force_https_plaintext_patch;
  direction = direction;
  upstream_host = upstream_host;
  upstream_port = upstream_port;
}

-- From the connected upstream on; both sockets are closed behind the pumps.
unfoldable pub connected :
    TcpProxyServer
    → Answers
    → ℕ
    → ℕ
    → SockAddr
    → (Bytes × ℕ) × Bool
    → Bytes
    → Table
    → List ℕ
    → Handled
connected server answers client_socket upstream_socket upstream_endpoint
      ((host, port), is_connect_tunnel) initial_payload flow_table opened =
    let force = is_connect_tunnel && server.config.https_plaintext_test_mode in
    let closed =
      close_socket_if_valid (some upstream_socket)
        (close_socket_if_valid (some client_socket) opened) in
    let greeting : List Bytes = if is_connect_tunnel then connect_ok ∷ [] else [] in
    let certificates : List Bytes =
      if is_connect_tunnel && server.config.https_mitm_enabled then host ∷ [] else [] in
    if is_connect_tunnel && not answers.sends
    then record {
      course = ended;
      certificates = certificates;
      greeting = greeting;
      dialled = some upstream_endpoint;
      flow_table = flow_table;
      opened = closed;
    }
    else record {
      course =
          pumped (session_of server force host port (codes "outbound"))
            (session_of server force host port (codes "inbound"))
            (if is_connect_tunnel then [] else initial_payload);
      certificates = certificates;
      greeting = greeting;
      dialled = some upstream_endpoint;
      flow_table = flow_table;
      opened = closed;
    }

module _ (resolve : Bytes → ℕ → Option SockAddr) (ip_text : SockAddr → Bytes) where
  -- From the look at the upstream address on.
  unfoldable pub dial :
      TcpProxyServer → Answers → ℕ → (Bytes × ℕ) × Bool → Bytes → Table → List ℕ → Handled
  unfolding connected
  dial server answers client_socket ((host, port), is_connect_tunnel) initial_payload flow_table
        opened =
      let closed = close_socket_if_valid (some client_socket) opened in
      let failed : Handled = record {
        course = ended;
        certificates = [];
        greeting = [];
        dialled = none;
        flow_table = flow_table;
        opened = closed;
      } in
      elim (resolve host port) [
        | none ↦ failed
        | some upstream_endpoint ↦ elim answers.upstream_socket [
          | none ↦ failed
          | some upstream_socket ↦
              let opened' = open_socket (some upstream_socket) opened in
              if not answers.connects
              then record failed {
                dialled = some upstream_endpoint;
                opened =
                    close_socket_if_valid (some upstream_socket)
                      (close_socket_if_valid (some client_socket) opened');
              }
              else connected server answers client_socket upstream_socket upstream_endpoint
                  ((host, port), is_connect_tunnel) initial_payload flow_table opened'
        ]
      ]

  -- From the target on.
  unfoldable pub handle_target :
      TcpProxyServer → Answers → ℕ → (Bytes × ℕ) × Bool → Bytes → Table → List ℕ → Handled
  unfolding dial
  handle_target server answers client_socket (target, is_connect_tunnel) initial_payload flow_table
        opened =
      if is_connect_tunnel
        && (server.config.https_mitm_enabled && not server.config.https_plaintext_test_mode)
      then record {
        course = if answers.sends then intercepted target.0 target.1 else ended;
        certificates = [];
        greeting = connect_ok ∷ [];
        dialled = none;
        flow_table = flow_table;
        opened = close_socket_if_valid (some client_socket) opened;
      }
      else dial server answers client_socket (target, is_connect_tunnel) initial_payload flow_table
          opened

  -- The client's socket is one of those that are open.
  unfoldable pub handle_client : TcpProxyServer → Answers → ℕ → Table → List ℕ → Handled
  unfolding handle_target choose_target
  handle_client server answers client_socket table opened =
      let (mapped_target, flow_table) =
        try_get_upstream answers.now
          (record {
            protocol = 6;
            source_ip = ip_text answers.client_endpoint;
            source_port = endpoint_port answers.client_endpoint;
          })
          table in
      let initial_payload : Bytes = elim answers.initial_received [
        | none ↦ []
        | some bytes ↦ bytes
      ] in
      handle_target server answers client_socket
        (choose_target server.config mapped_target initial_payload) initial_payload flow_table
        opened
