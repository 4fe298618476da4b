-- ===== src/Transport/Session/Serve.antt =====
-- src/transport/tcp_proxy_server.cpp: `serve`. The connections are handled one after the other, in the
-- order in which they are accepted; what they share is the flow table, each call of which is one step.
use network_proxy.Prelude.{
  if◌then◌else◌, Bool-cases, Option-cases, Bytes, ℕ, ◌≡◌, refl, ◌∙◌, inl, inr, Bool, true, false,
  not, ◌||◌, Option, none, some, List, [], ◌∷◌, arith,
}
use network_proxy.Common.Handles.{
  close_socket_if_valid, open_socket, remove, count, count-remove, count-one,
}
use network_proxy.Capture.FlowTable.{Table}
use network_proxy.Transport.Endpoint.{SockAddr}
use network_proxy.Transport.Session.{TcpProxyServer, Answers, Handled, handle_client}
use network_proxy.Transport.Session.Closes.{handle_client-closes}

-- What the loop leaves behind.
pub record Loop : Type 0 where
  pub handled : List Handled
  pub flow_table : Table
  pub opened : List ℕ

-- The answers of `resolve_endpoint`, `socket`, `bind` and `listen`.
pub record Startup : Type 0 where
  pub listen_endpoint : Option SockAddr
  pub listen_socket : Option ℕ
  pub binds : Bool
  pub listens : Bool

-- The state at the end, and whether `serve` itself has asked the program to stop.
pub record Served : Type 0 where
  pub loop : Loop
  pub stores_stop : Bool

module _ (resolve : Bytes → ℕ → Option SockAddr) (ip_text : SockAddr → Bytes) where
  -- What each `accept` gives: no socket, or a socket with the answers that its connection will have.
  unfoldable pub serve_loop : TcpProxyServer → List (Option (ℕ × Answers)) → Table → List ℕ → Loop
  serve_loop server [] table opened = record { handled = []; flow_table = table; opened = opened }
  serve_loop server (none ∷ accepted) table opened = serve_loop server accepted table opened
  serve_loop server (some (client_socket, answers) ∷ accepted) table opened =
      let handled =
        handle_client resolve ip_text server answers client_socket table
          (open_socket (some client_socket) opened) in
      let rest = serve_loop server accepted handled.flow_table handled.opened in
      record rest { handled = handled ∷ rest.handled }

  unfoldable pub serve :
      TcpProxyServer → Startup → List (Option (ℕ × Answers)) → Table → List ℕ → Served
  unfolding serve_loop
  serve server answers accepted table opened =
      let unchanged : List ℕ → Loop =
        λ sockets. record { handled = []; flow_table = table; opened = sockets } in
      elim answers.listen_endpoint [
        | none ↦ record { loop = unchanged opened; stores_stop = true }
        | some listen_endpoint ↦ elim answers.listen_socket [
          | none ↦ record { loop = unchanged opened; stores_stop = true }
          | some listen_socket ↦
              let opened' = open_socket (some listen_socket) opened in
              if not answers.binds || not answers.listens
              then record {
                loop = unchanged (close_socket_if_valid (some listen_socket) opened');
                stores_stop = true;
              }
              else let loop = serve_loop server accepted table opened' in
                record {
                  loop = record loop {
                    opened = close_socket_if_valid (some listen_socket) loop.opened;
                  };
                  stores_stop = false;
                }
        ]
      ]

module _ (h : ℕ) (resolve : Bytes → ℕ → Option SockAddr) (ip_text : SockAddr → Bytes)
    (server : TcpProxyServer) where
  serve_loop-closes :
      (accepted : List (Option (ℕ × Answers))) (table : Table) (opened : List ℕ)
      → count h (serve_loop resolve ip_text server accepted table opened).opened ≡ count h opened
  unfolding serve_loop
  serve_loop-closes [] table opened = refl
  serve_loop-closes (none ∷ accepted) table opened = serve_loop-closes accepted table opened
  serve_loop-closes (some (k, answers) ∷ accepted) table opened =
      let handled = handle_client resolve ip_text server answers k table (k ∷ opened) in
      serve_loop-closes accepted handled.flow_table handled.opened
      ∙ handle_client-closes h resolve ip_text server answers k table opened

  started-closes :
      (k : ℕ) (accepted : List (Option (ℕ × Answers))) (table : Table) (opened : List ℕ)
      → count h (remove k (serve_loop resolve ip_text server accepted table (k ∷ opened)).opened)
        ≡ count h opened
  unfolding count
  started-closes k accepted table opened =
      let after = (serve_loop resolve ip_text server accepted table (k ∷ opened)).opened in
      ground (arith, count-remove h k after, serve_loop-closes accepted table (k ∷ opened))

-- However the listener starts, and whatever connections it accepts: the sockets that are open when
-- `serve` returns are those that were open before it; each connection, on each of its paths, has
-- closed the client's socket and its own.
pub serve-closes :
    (h : ℕ) (resolve : Bytes → ℕ → Option SockAddr) (ip_text : SockAddr → Bytes)
    (server : TcpProxyServer) (answers : Startup) (accepted : List (Option (ℕ × Answers)))
    (table : Table) (opened : List ℕ)
    → count h (serve resolve ip_text server answers accepted table opened).loop.opened
      ≡ count h opened
unfolding serve
serve-closes h resolve ip_text server answers accepted table opened =
    elim (Option-cases answers.listen_endpoint) [
      | inl e ↦ rw (serve, e)
      | inr (endpoint, e) ↦ elim (Option-cases answers.listen_socket) [
        | inl f ↦ rw (serve, e, f)
        | inr (k, f) ↦ elim (Bool-cases (not answers.binds || not answers.listens)) [
          | inl b ↦ rw (serve, e, f, b) (count-one h k opened)
          | inr b ↦
              rw (serve, e, f, b) (started-closes h resolve ip_text server k accepted table opened)
        ]
      ]
    ]
