-- ===== src/Transport/Session/Transparent.antt =====
-- A connection that is told to change nothing forwards both its streams.
use network_proxy.Prelude.{
  if◌then◌else◌, Bool-cases, Option-cases, if_cases, is_some, Bytes, find, ℕ, ◌≡◌, refl, inl, inr,
  Bool, not, ◌&&◌, Option, none, some, List, [], ◌∷◌, ◌++◌,
}
use network_proxy.Capture.FlowTable.{Table, try_get_upstream}
use network_proxy.Config.Types.{AppConfig}
use network_proxy.Protocol.Manager.Idle.{IsIdle}
use network_proxy.Transport.Connect.{parse_connect_authority}
use network_proxy.Transport.Endpoint.{SockAddr, endpoint_port}
use network_proxy.Transport.Pump.{Session, Event, patch_chunk}
use network_proxy.Transport.Pump.Conserve.{pending}
use network_proxy.Transport.Pump.Transparent.{patch_chunk-pass}
use network_proxy.Transport.Duplex.{Duplex, Direction, Steps, duplex}
use network_proxy.Transport.Duplex.Forwards.{AreForwarding, Steps-AreForwarding}
use network_proxy.Transport.Duplex.Conserve.{stream_of, stream-Steps}
use network_proxy.Transport.Session.{
  TcpProxyServer, Answers, Course, ended, intercepted, pumped, Handled, connected, dial,
  handle_target, choose_target, handle_client,
}

-- The pump of a thread, and the results of its sends.
abbrev pub direction_of : Session → (List Bytes → Bytes → Bool) → Direction
direction_of session send = record { patch = patch_chunk session; send = send }

-- What the outbound pump starts from: the first read, or nothing where that opens a tunnel.
abbrev pub first_of : Bytes → Bytes
first_of initial = if is_some (parse_connect_authority initial) then [] else initial

-- A session has the engines of the server.
abbrev IsOf : TcpProxyServer → Session → Type 0
IsOf server s = (s.manager ≡ server.protocol_manager) × (s.engine ≡ server.patch_engine)

abbrev IsOwn : TcpProxyServer → Bytes → Course → Type 0
IsOwn server initial ended = Unit
IsOwn server initial (intercepted host port) = Unit
IsOwn server initial (pumped out into first) =
    IsOf server out × (IsOf server into × (first ≡ first_of initial))

abbrev IsOwnHandled : TcpProxyServer → Bytes → Handled → Type 0
IsOwnHandled server initial h = IsOwn server initial h.course

first_payload :
    (initial : Bytes) (tunnel : Bool)
    → tunnel ≡ is_some (parse_connect_authority initial)
    → (if tunnel then [] else initial) ≡ first_of initial
first_payload initial tunnel t = rw t

module _ (resolve : Bytes → ℕ → Option SockAddr) (ip_text : SockAddr → Bytes)
    (server : TcpProxyServer) (answers : Answers) (client_socket : ℕ) (initial : Bytes)
    (tunnel : Bool) (t : tunnel ≡ is_some (parse_connect_authority initial)) where
  connected-IsOwn :
      (upstream_socket : ℕ) (endpoint : SockAddr) (host : Bytes) (port : ℕ) (table : Table)
      (opened : List ℕ)
      → IsOwnHandled server initial (
          connected server answers client_socket upstream_socket endpoint
            ((host, port), tunnel)
            initial
            table
            opened)
  unfolding connected
  connected-IsOwn upstream_socket endpoint host port table opened =
      if_cases (IsOwnHandled server initial) (tunnel && not answers.sends) _ _ (λ _. tt)
        λ _. ((refl, refl), ((refl, refl), first_payload initial tunnel t))

  dial-IsOwn :
      (host : Bytes) (port : ℕ) (table : Table) (opened : List ℕ)
      → IsOwnHandled server initial (
          dial resolve ip_text server answers client_socket
            ((host, port), tunnel)
            initial
            table
            opened)
  unfolding dial
  dial-IsOwn host port table opened = elim (Option-cases (resolve host port)) [
    | inl r ↦ rw (dial, r) tt
    | inr (e, r) ↦ elim (Option-cases answers.upstream_socket) [
      | inl u ↦ rw (dial, r, u) tt
      | inr (k, u) ↦ elim (Bool-cases answers.connects) [
        | inl c ↦ rw (dial, r, u, c) (connected-IsOwn k e host port table (k ∷ opened))
        | inr c ↦ rw (dial, r, u, c) tt
      ]
    ]
  ]

  handle_target-IsOwn :
      (host : Bytes) (port : ℕ) (table : Table) (opened : List ℕ)
      → IsOwnHandled server initial (
          handle_target resolve ip_text server answers client_socket
            ((host, port), tunnel)
            initial
            table
            opened)
  unfolding handle_target
  handle_target-IsOwn host port table opened =
      if_cases (IsOwnHandled server initial)
        (tunnel
          && (server.config.https_mitm_enabled && not server.config.https_plaintext_test_mode))
        _ _ (λ _. if_cases (IsOwn server initial) answers.sends _ _ (λ _. tt) λ _. tt)
        λ _. dial-IsOwn host port table opened

choose_target-tunnel :
    (config : AppConfig) (mapped : Option (Bytes × ℕ)) (initial : Bytes)
    → (choose_target config mapped initial).1 ≡ is_some (parse_connect_authority initial)
unfolding choose_target parse_connect_authority find
choose_target-tunnel config mapped [] = refl
choose_target-tunnel config mapped (c ∷ initial) =
    elim (Option-cases (parse_connect_authority (c ∷ initial))) [
      | inl n ↦ rw (choose_target, n)
      | inr (target, f) ↦ rw (choose_target, f)
    ]

-- What the first read gives.
abbrev pub initial_of : Answers → Bytes
initial_of answers = elim answers.initial_received [ none ↦ [] | some bytes ↦ bytes ]

handle_client-IsOwn :
    (resolve : Bytes → ℕ → Option SockAddr) (ip_text : SockAddr → Bytes) (server : TcpProxyServer)
    (answers : Answers) (client_socket : ℕ) (table : Table) (opened : List ℕ)
    → IsOwnHandled server
        (initial_of answers)
        (handle_client resolve ip_text server answers client_socket table opened)
unfolding handle_client
handle_client-IsOwn resolve ip_text server answers client_socket table opened =
    let (mapped, flow_table) =
      try_get_upstream answers.now
        (record {
          protocol = 6;
          source_ip = ip_text answers.client_endpoint;
          source_port = endpoint_port answers.client_endpoint;
        })
        table in
    let ((host, port), tunnel) = choose_target server.config mapped (initial_of answers) in
    handle_target-IsOwn resolve ip_text server answers client_socket (initial_of answers) tunnel
      (choose_target-tunnel server.config mapped (initial_of answers)) host port flow_table opened

-- A connection whose pumps run, on a server whose engines change nothing: however the rounds of its
-- two pumps are interleaved, what the outbound pump has handed to `send_all`, holds and is to read is
-- the first payload and then the client's stream, and that of the inbound pump is the upstream's
-- stream. The first payload is nothing where the first read is a CONNECT request that is understood,
-- and what that read gave where it is not. A pump that has run a round holds nothing back, so that it
-- has handed over all that it read, unless it has found HTTP: then it has handed over a message, or
-- holds no whole one and at most 8192 bytes.
pub handle_client-transparent :
    (resolve : Bytes → ℕ → Option SockAddr) (ip_text : SockAddr → Bytes) (server : TcpProxyServer)
    (answers : Answers) (client_socket : ℕ) (table : Table) (opened : List ℕ) (out into : Session)
    (first : Bytes) (send_outbound send_inbound : List Bytes → Bytes → Bool)
    (from_client from_upstream : List Event) {d : Duplex}
    → IsIdle server.patch_engine
    → IsIdle server.protocol_manager.patch_engine
    → (handle_client resolve ip_text server answers client_socket table opened).course
      ≡ pumped out into first
    → Steps
        (direction_of out send_outbound)
        (direction_of into send_inbound)
        (duplex first from_client from_upstream)
        d
    → (stream_of d.outbound ≡ first ++ pending from_client)
      × (stream_of d.inbound ≡ pending from_upstream)
      × (first ≡ first_of (initial_of answers))
      × AreForwarding first from_client d
handle_client-transparent resolve ip_text server answers client_socket table opened out into first
      send_outbound send_inbound from_client from_upstream {d} ie im c steps =
    let ((om, oe), ((jm, je), f)) =
      (rw c at (handle_client-IsOwn resolve ip_text server answers client_socket table opened)) in
    let po = patch_chunk-pass out (rw om im) (rw oe ie) in
    let pi = patch_chunk-pass into (rw jm im) (rw je ie) in
    let (a, b) =
      stream-Steps send_outbound send_inbound {d = duplex first from_client from_upstream} {e = d}
        (rw (po, pi) at steps) in
    (a, b, f, Steps-AreForwarding _ _ first from_client from_upstream steps)
