-- ===== src/Transport/Datagram/Relay.antt =====
-- Which client gets which answer.
use network_proxy.Prelude.{
  ◌==◌, Bytes, codes, ℕ, ◌≡◌, refl, ap, ◌∙◌, true, false, Option, some, List, [], ◌∷◌, ◌++◌, map,
  append_assoc, append-nil,
}
use network_proxy.Capture.FlowTable.{try_get_upstream}
use network_proxy.Protocol.Manager.Idle.{IsIdle, patch_payload-idle, transport-idle}
use network_proxy.Transport.Endpoint.{SockAddr, af_inet6}
use network_proxy.Transport.Datagram.{
  UdpProxyServer, patch_datagram, Udp, Turn, arrive, receive, choose_upstream, reply_to, exchange,
  client_key, forward_to, round, serve_loop,
}

pub record IsIdleServer (server : UdpProxyServer) : Type 0 where
  pub engine : IsIdle server.patch_engine
  pub manager : IsIdle server.protocol_manager.patch_engine

pub patch_datagram-idle :
    (server : UdpProxyServer) (direction host : Bytes) (port : ℕ) (payload : Bytes)
    → IsIdleServer server
    → patch_datagram server direction host port payload ≡ payload
unfolding patch_datagram
patch_datagram-idle server direction host port payload idle =
    rw (patch_datagram, patch_payload-idle server.protocol_manager _ payload idle.manager)
      (rw (transport-idle server.patch_engine idle.engine payload (codes "udp") direction _))

-- A question of a client, and the answer that arrives to it.
pub record Exchange : Type 0 where
  pub now : ℕ
  pub client : SockAddr
  pub question : Bytes
  pub answer : Bytes

abbrev pub turn_of : Exchange → Turn
turn_of x = record {
  now = x.now;
  received = some (x.client, x.question);
  upstream_sends = true;
  arrived_v4 = some x.answer ∷ [];
  arrived_v6 = [];
}

abbrev pub zip : {A B : Type 0} → List A → List B → List (A × B)
zip [] ys = []
zip (x ∷ xs) [] = []
zip (x ∷ xs) (y ∷ ys) = (x, y) ∷ zip xs ys

-- Every target has an address, and it is of IPv4.
abbrev pub ResolvesV4 : (Bytes → ℕ → Option SockAddr) → Type 0
ResolvesV4 resolve =
    (host : Bytes) (port : ℕ)
    → (endpoint : SockAddr) × (resolve host port ≡ some endpoint)
      × ((endpoint.sa_family == af_inet6) ≡ false)

-- An answer that has gone to a client, with those that wait still.
abbrev Gives : Udp → SockAddr → Bytes → List Bytes → Udp → Type 0
Gives u client answer rest u' =
    (u'.to_client ≡ u.to_client ++ ((client, answer) ∷ [])) × (u'.waiting_v4 ≡ map some rest)

map-snoc :
    (late : List Bytes) (answer : Bytes)
    → map some late ++ (some answer ∷ []) ≡ map some (late ++ (answer ∷ []))
map-snoc [] answer = refl
map-snoc (x ∷ late) answer = ap (λ (l : List (Option Bytes)). some x ∷ l) (map-snoc late answer)

module _ (resolve : Bytes → ℕ → Option SockAddr) (ip_text : SockAddr → Bytes)
    (server : UdpProxyServer) (resolves : ResolvesV4 resolve) (idle : IsIdleServer server) where
  forward_to-Gives :
      (x : Exchange) (target : Bytes × ℕ) (u : Udp) (answer : Bytes) (rest : List Bytes)
      → u.waiting_v4 ≡ map some (answer ∷ rest)
      → Gives u x.client answer rest
          (forward_to resolve ip_text server (turn_of x) x.client x.question target u)
  unfolding forward_to exchange reply_to receive
  forward_to-Gives x (host, port) u answer rest w =
      let (endpoint, e, f) = resolves host port in
      rw (forward_to, e, exchange, f, receive, w)
        (rw (patch_datagram-idle server (codes "inbound") host port answer idle) (refl, refl))

  round-Gives :
      (x : Exchange) (u : Udp) (answer : Bytes) (rest : List Bytes)
      → u.waiting_v4 ++ (some x.answer ∷ []) ≡ map some (answer ∷ rest)
      → Gives u x.client answer rest (round resolve ip_text server (turn_of x) u)
  unfolding round
  round-Gives x u answer rest w =
      let (mapped, table) = try_get_upstream x.now (client_key ip_text x.client) u.flow_table in
      forward_to-Gives x (choose_upstream server.config mapped)
        (arrive (turn_of x) (record u { flow_table = table })) answer rest w

  serve_loop-zip :
      (exchanges : List Exchange) (late : List Bytes) (u : Udp)
      → u.waiting_v4 ≡ map some late
      → (serve_loop resolve ip_text server (map turn_of exchanges) u).to_client
        ≡ u.to_client
          ++ zip
              (map (λ (x : Exchange). x.client) exchanges)
              (late ++ map (λ (x : Exchange). x.answer) exchanges)
  unfolding serve_loop
  serve_loop-zip [] late u w = rw (append-nil u.to_client)
  serve_loop-zip (x ∷ exchanges) [] u w =
      let (c, q) = round-Gives x u x.answer [] (rw w) in
      rw (serve_loop-zip exchanges [] (round resolve ip_text server (turn_of x) u) q)
        (rw c (simp append_assoc))
  serve_loop-zip (x ∷ exchanges) (answer ∷ late) u w =
      let (c, q) = round-Gives x u answer (late ++ (x.answer ∷ [])) (
        ap (λ (l : List (Option Bytes)). l ++ (some x.answer ∷ [])) w
        ∙ map-snoc (answer ∷ late) x.answer) in
      rw
        (serve_loop-zip exchanges (late ++ (x.answer ∷ []))
          (round resolve ip_text server (turn_of x) u) q)
        (rw c (simp append_assoc))

-- With no rules and every patch off, where each round has a datagram that is sent on over IPv4 and
-- one answer arrives in it: the clients get the answers in the order these arrived, unchanged, and
-- those that waited before the first round (they came too late) come first, whoever they were for.
-- So where none waited, each client has the answer to its own question; and where one did, each has
-- the answer to the question before its own, to the end of the run.
pub serve_loop-answers :
    (resolve : Bytes → ℕ → Option SockAddr) (ip_text : SockAddr → Bytes) (server : UdpProxyServer)
    (exchanges : List Exchange) (late : List Bytes) (u : Udp)
    → ResolvesV4 resolve
    → IsIdleServer server
    → u.waiting_v4 ≡ map some late
    → (serve_loop resolve ip_text server (map turn_of exchanges) u).to_client
      ≡ u.to_client
        ++ zip
            (map (λ (x : Exchange). x.client) exchanges)
            (late ++ map (λ (x : Exchange). x.answer) exchanges)
serve_loop-answers resolve ip_text server exchanges late u resolves idle w =
    serve_loop-zip resolve ip_text server resolves idle exchanges late u w
