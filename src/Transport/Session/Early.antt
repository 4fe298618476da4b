-- ===== src/Transport/Session/Early.antt =====
-- What a client sends together with its CONNECT request.
use network_proxy.Prelude.{
  Option-cases, length, take, Bytes, codes, find, find-le-length, find-append_right, ℕ, zero, suc,
  ◌≤◌, ◌≡◌, refl, sym, ap, ◌∙◌, inl, inr, true, Option, some, List, [], ◌∷◌, ◌++◌, append-nil,
  arith,
}
use network_proxy.Config.Types.{AppConfig}
use network_proxy.Capture.FlowTable.{Table, try_get_upstream}
use network_proxy.Transport.Endpoint.{SockAddr, endpoint_port}
use network_proxy.Transport.Connect.{parse_first_line, parse_connect_authority}
use network_proxy.Transport.Session.{
  TcpProxyServer, Answers, connected, dial, handle_target, choose_target, handle_client,
}

take-append : (i : ℕ) (s t : Bytes) → i ≤ length s → take i (s ++ t) ≡ take i s
take-append zero s t h = refl
take-append (suc i) [] t h = absurd (omega arith)
take-append (suc i) (c ∷ s) t h = ap (λ (r : Bytes). c ∷ r) (take-append i s t (omega arith))

parse_connect_authority-append :
    (request early : Bytes) (target : Bytes × ℕ)
    → parse_connect_authority request ≡ some target
    → parse_connect_authority (request ++ early) ≡ some target
unfolding parse_connect_authority
parse_connect_authority-append request early target h =
    elim (Option-cases (find request (codes "\r\n"))) [
      | inl n ↦ absurd (cc (rw (parse_connect_authority, n) at h))
      | inr (i, f) ↦
          let l : i ≤ length request = omega (arith, find-le-length request (codes "\r\n") i f) in
          rw
            (
              parse_connect_authority,
              find-append_right request early (codes "\r\n") i f (λ e. absurd (cc e)),
            )
            (ap parse_first_line (take-append i request early l)
              ∙ rw (parse_connect_authority, f) at h)
    ]

choose_target-append :
    (config : AppConfig) (mapped : Option (Bytes × ℕ)) (request early : Bytes) (target : Bytes × ℕ)
    → parse_connect_authority request ≡ some target
    → choose_target config mapped (request ++ early) ≡ (target, true)
unfolding choose_target parse_connect_authority find
choose_target-append config mapped [] early target h = absurd (cc h)
choose_target-append config mapped (c ∷ request) early target h =
    rw (choose_target, parse_connect_authority-append (c ∷ request) early target h)

module _ (resolve : Bytes → ℕ → Option SockAddr) (ip_text : SockAddr → Bytes)
    (server : TcpProxyServer) (answers : Answers) (client_socket : ℕ) (table : Table)
    (opened : List ℕ) where
  -- Behind CONNECT the first payload plays no part.
  handle_client-tunnel :
      (payload : Bytes) (target : Bytes × ℕ)
      → ((mapped : Option (Bytes × ℕ))
          → choose_target server.config mapped payload ≡ (target, true))
      → handle_client resolve ip_text server
          (record answers { initial_received = some payload })
          client_socket
          table
          opened
        ≡ handle_target resolve ip_text server answers client_socket
            (target, true)
            []
            (try_get_upstream answers.now
              (record {
                protocol = 6;
                source_ip = ip_text answers.client_endpoint;
                source_port = endpoint_port answers.client_endpoint;
              })
              table).1
            opened
  unfolding handle_client handle_target dial connected
  handle_client-tunnel payload target h = rw (handle_client, h)

-- Bytes that come in one read behind a CONNECT request that is understood play no part: the course of
-- the connection (with the bytes that its first pump starts from), all that is sent and all that is
-- left behind are as if they had not come.
pub handle_client-early :
    (resolve : Bytes → ℕ → Option SockAddr) (ip_text : SockAddr → Bytes) (server : TcpProxyServer)
    (answers : Answers) (client_socket : ℕ) (table : Table) (opened : List ℕ)
    (request early : Bytes) (target : Bytes × ℕ)
    → parse_connect_authority request ≡ some target
    → handle_client resolve ip_text server
        (record answers { initial_received = some (request ++ early) })
        client_socket
        table
        opened
      ≡ handle_client resolve ip_text server
          (record answers { initial_received = some request })
          client_socket
          table
          opened
handle_client-early resolve ip_text server answers client_socket table opened request early target
      h =
    handle_client-tunnel resolve ip_text server answers client_socket table opened
      (request ++ early) target
      (λ mapped. choose_target-append server.config mapped request early target h)
    ∙ sym (
        handle_client-tunnel resolve ip_text server answers client_socket table opened request
          target
          λ mapped.
            rw (append-nil request) at
              (choose_target-append server.config mapped request [] target h))
