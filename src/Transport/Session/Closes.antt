-- ===== src/Transport/Session/Closes.antt =====
-- The sockets of a connection are closed on every path.
use network_proxy.Prelude.{
  Bool-cases, Option-cases, Bytes, ℕ, ◌≡◌, inl, inr, Bool, not, ◌&&◌, Option, List, ◌∷◌,
}
use network_proxy.Common.Handles.{count, count-one, count-pair}
use network_proxy.Capture.FlowTable.{Table}
use network_proxy.Transport.Endpoint.{SockAddr}
use network_proxy.Transport.Session.{
  TcpProxyServer, Answers, connected, dial, handle_target, handle_client,
}

module _ (h : ℕ) (resolve : Bytes → ℕ → Option SockAddr) (ip_text : SockAddr → Bytes)
    (server : TcpProxyServer) (answers : Answers) (client_socket : ℕ) where
  count-connected :
      (upstream_socket : ℕ) (endpoint : SockAddr) (host : Bytes) (port : ℕ) (tunnel : Bool)
      (payload : Bytes) (table : Table) (opened : List ℕ)
      → count h
          (connected server answers client_socket upstream_socket endpoint
            ((host, port), tunnel)
            payload
            table
            (upstream_socket ∷ client_socket ∷ opened)).opened
        ≡ count h opened
  unfolding connected
  count-connected upstream_socket endpoint host port tunnel payload table opened =
      elim (Bool-cases (tunnel && not answers.sends)) [
        | inl b ↦ rw (connected, b) (count-pair h client_socket upstream_socket opened)
        | inr b ↦ rw (connected, b) (count-pair h client_socket upstream_socket opened)
      ]

  count-dial :
      (host : Bytes) (port : ℕ) (tunnel : Bool) (payload : Bytes) (table : Table) (opened : List ℕ)
      → count h
          (dial resolve ip_text server answers client_socket
            ((host, port), tunnel)
            payload
            table
            (client_socket ∷ opened)).opened
        ≡ count h opened
  unfolding dial
  count-dial host port tunnel payload table opened = elim (Option-cases (resolve host port)) [
    | inl r ↦ rw (dial, r) (count-one h client_socket opened)
    | inr (e, r) ↦ elim (Option-cases answers.upstream_socket) [
      | inl u ↦ rw (dial, r, u) (count-one h client_socket opened)
      | inr (k, u) ↦ elim (Bool-cases answers.connects) [
        | inl c ↦ rw (dial, r, u, c) (count-connected k e host port tunnel payload table opened)
        | inr c ↦ rw (dial, r, u, c) (count-pair h client_socket k opened)
      ]
    ]
  ]

  count-handle_target :
      (host : Bytes) (port : ℕ) (tunnel : Bool) (payload : Bytes) (table : Table) (opened : List ℕ)
      → count h
          (handle_target resolve ip_text server answers client_socket
            ((host, port), tunnel)
            payload
            table
            (client_socket ∷ opened)).opened
        ≡ count h opened
  unfolding handle_target
  count-handle_target host port tunnel payload table opened =
      elim (Bool-cases (
        tunnel
        && (server.config.https_mitm_enabled && not server.config.https_plaintext_test_mode))) [
          | inl b ↦ rw (handle_target, b) (count-one h client_socket opened)
          | inr b ↦ rw (handle_target, b) (count-dial host port tunnel payload table opened)
        ]

-- However a connection goes, whatever the client sends and whatever fails, the sockets that are open
-- when `handle_client` returns are those that were open before the client's was.
pub handle_client-closes :
    (h : ℕ) (resolve : Bytes → ℕ → Option SockAddr) (ip_text : SockAddr → Bytes)
    (server : TcpProxyServer) (answers : Answers) (client_socket : ℕ) (table : Table)
    (opened : List ℕ)
    → count h
        (handle_client resolve ip_text server answers client_socket table
          (client_socket ∷ opened)).opened
      ≡ count h opened
unfolding handle_client
handle_client-closes h resolve ip_text server answers client_socket table opened =
    count-handle_target h resolve ip_text server answers client_socket _ _ _ _ _ opened
