-- ===== src/Transport/Datagram/Serve.antt =====
-- src/transport/udp_proxy_server.cpp: `serve` with the sockets it opens and closes.
use network_proxy.Prelude.{
  if◌then◌else◌, Bool-cases, Option-cases, is_some, Bytes, ℕ, ◌≡◌, inl, inr, Bool, true, false, not,
  ◌||◌, Option, none, some, List, arith,
}
use network_proxy.Common.Handles.{
  close_socket_if_valid, open_socket, count, count-close, count-open,
}
use network_proxy.Transport.Endpoint.{SockAddr}
use network_proxy.Transport.Datagram.{UdpProxyServer, Udp, Turn, serve_loop}

-- The answers of `resolve_endpoint`, of `socket` three times, and of `bind`.
pub record Startup : Type 0 where
  pub listen_endpoint : Option SockAddr
  pub listen_socket : Option ℕ
  pub upstream_socket_v4 : Option ℕ
  pub upstream_socket_v6 : Option ℕ
  pub binds : Bool

-- The sockets that are open at the end, whether `serve` itself has asked the program to stop, and
-- the loop's state.
pub record Served : Type 0 where
  pub opened : List ℕ
  pub stores_stop : Bool
  pub udp : Udp

unfoldable pub close_all : Startup → List ℕ → List ℕ
close_all answers opened = close_socket_if_valid answers.upstream_socket_v6 (
    close_socket_if_valid answers.upstream_socket_v4
      (close_socket_if_valid answers.listen_socket opened))

module _ (resolve : Bytes → ℕ → Option SockAddr) (ip_text : SockAddr → Bytes) where
  -- The turns are those up to the stop.
  unfoldable pub serve : UdpProxyServer → Startup → List Turn → Udp → List ℕ → Served
  unfolding close_all
  serve server answers turns u opened = elim answers.listen_endpoint [
    | none ↦ record { opened = opened; stores_stop = true; udp = u }
    | some listen_endpoint ↦
        let opened' =
          open_socket answers.upstream_socket_v6
            (open_socket answers.upstream_socket_v4 (open_socket answers.listen_socket opened)) in
        let failed : Served = record {
          opened = close_all answers opened';
          stores_stop = true;
          udp = u;
        } in
        if not (is_some answers.listen_socket) || not (is_some answers.upstream_socket_v4)
        then failed
        else if not answers.binds
        then failed
        else record {
          opened = close_all answers opened';
          stores_stop = false;
          udp =
              serve_loop resolve ip_text
                (record server { upstream_v6_valid = is_some answers.upstream_socket_v6 }) turns u;
        }
  ]

close_all-count :
    (h : ℕ) (answers : Startup) (opened : List ℕ)
    → count h (
        close_all answers (
          open_socket answers.upstream_socket_v6
            (open_socket answers.upstream_socket_v4 (open_socket answers.listen_socket opened))))
      ≡ count h opened
unfolding close_all
close_all-count h answers opened =
    let l₁ = open_socket answers.listen_socket opened in
    let l₂ = open_socket answers.upstream_socket_v4 l₁ in
    let l₃ = open_socket answers.upstream_socket_v6 l₂ in
    let l₄ = close_socket_if_valid answers.listen_socket l₃ in
    let l₅ = close_socket_if_valid answers.upstream_socket_v4 l₄ in
    omega (
      arith,
      count-open h answers.listen_socket opened,
      count-open h answers.upstream_socket_v4 l₁,
      count-open h answers.upstream_socket_v6 l₂,
      count-close h answers.listen_socket l₃,
      count-close h answers.upstream_socket_v4 l₄,
      count-close h answers.upstream_socket_v6 l₅,
    )

-- The sockets that are open when `serve` returns are those that were open before it.
pub udp_serve-closes :
    (h : ℕ) (resolve : Bytes → ℕ → Option SockAddr) (ip_text : SockAddr → Bytes)
    (server : UdpProxyServer) (answers : Startup) (turns : List Turn) (u : Udp) (opened : List ℕ)
    → count h (serve resolve ip_text server answers turns u opened).opened ≡ count h opened
unfolding serve
udp_serve-closes h resolve ip_text server answers turns u opened =
    let z = close_all-count h answers opened in
    elim (Option-cases answers.listen_endpoint) [
      | inl e ↦ rw (serve, e)
      | inr (endpoint, e) ↦
          elim (Bool-cases
            (not (is_some answers.listen_socket) || not (is_some answers.upstream_socket_v4))) [
              | inl b ↦ rw (serve, e, b) z
              | inr b ↦ elim (Bool-cases answers.binds) [
                | inl c ↦ rw (serve, e, b, c) z
                | inr c ↦ rw (serve, e, b, c) z
              ]
            ]
    ]
