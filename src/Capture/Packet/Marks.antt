-- ===== src/Capture/Packet/Marks.antt =====
-- What the redirecting of a packet keeps of it, and puts into it.
use network_proxy.Prelude.{
  ltb, ◌==◌, not-ltb→le, ||-false, OnSome, OnSome-if, length, get_or, Bytes, eqb, substr, eqb_refl,
  ℕ, ◌+◌, ◌*◌, ◌%◌, ◌≤◌, ◌<◌, ◌≡◌, ◌∙◌, Bool, true, not, ◌||◌, Option, none, arith,
}
use network_proxy.Config.Types.{AppConfig}
use network_proxy.Capture.Packet.{
  k_loopback_ipv4_network_order, k_loopback_ipv6, load32, bytes32, bytes16, htonl, swap16, load16,
  k_protocol_tcp, k_protocol_udp, write_at, redirect_v4, rewrite_v4, redirect_v6, rewrite_v6,
}
use network_proxy.Capture.Packet.Stores.{
  length-write_at, get_or-write_before, get_or-write_in, substr-write_at,
}

-- The bytes of the address that is stored.
abbrev pub loopback_bytes : Bytes
loopback_bytes = bytes32 (htonl k_loopback_ipv4_network_order)

-- What the two stores for IPv4 keep of a packet, and put into it.
module _ (port i : ℕ) (p : Bytes) (h : 20 ≤ i) (l : i + 4 ≤ length p) where
  stored_port : Bytes
  stored_port = write_at (i + 2) (bytes16 port) p

  stored : Bytes
  stored = write_at 16 loopback_bytes stored_port

  stored-length : length stored ≡ length p
  unfolding stored stored_port
  stored-length =
      length-write_at 16 loopback_bytes stored_port ∙ length-write_at (i + 2) (bytes16 port) p

  stored-first : get_or stored 0 0 ≡ get_or p 0 0
  unfolding stored stored_port
  stored-first =
      get_or-write_before 16 loopback_bytes stored_port 0 0 (omega arith)
      ∙ get_or-write_before (i + 2) (bytes16 port) p 0 0 (omega arith)

  stored-byte : (j : ℕ) → j < 4 → get_or stored (16 + j) 0 ≡ get_or loopback_bytes j 0
  unfolding stored stored_port
  stored-byte j hj =
      get_or-write_in 16 loopback_bytes stored_port j 0 hj
        (omega (arith, length-write_at (i + 2) (bytes16 port) p))

  stored-address : load32 stored 16 ≡ htonl k_loopback_ipv4_network_order
  stored-address =
      let e₀ : get_or stored 16 0 ≡ 1 = stored-byte 0 (omega arith) in
      let e₁ : get_or stored 17 0 ≡ 0 = stored-byte 1 (omega arith) in
      let e₂ : get_or stored 18 0 ≡ 0 = stored-byte 2 (omega arith) in
      let e₃ : get_or stored 19 0 ≡ 127 = stored-byte 3 (omega arith) in rw (e₀, e₁, e₂, e₃)

  stored-bytes : substr stored 16 4 ≡ loopback_bytes
  unfolding stored stored_port
  stored-bytes =
      substr-write_at 16 loopback_bytes stored_port
        (omega (arith, length-write_at (i + 2) (bytes16 port) p))

module _ (inet_ntop4 : ℕ → Option Bytes) (inet_ntop6 : Bytes → Option Bytes) where
  -- What the block for one protocol does to a packet.
  unfoldable pub Marks : Bytes → Bytes → Type 0
  Marks p q =
      (length q ≡ length p)
      × (get_or q 0 0 ≡ get_or p 0 0)
      × (load32 q 16 ≡ htonl k_loopback_ipv4_network_order)
      × (substr q 16 4 ≡ loopback_bytes)

  redirect_v4-Marks :
      (protocol : ℕ) (enabled : Bool) (port : ℕ) (p : Bytes) (i : ℕ)
      → 20 ≤ i
      → OnSome (λ r. Marks p r.packet) (redirect_v4 inet_ntop4 inet_ntop6 protocol enabled port p i)
  unfolding redirect_v4 Marks stored stored_port
  redirect_v4-Marks protocol enabled port p i h =
      OnSome-if _ (not enabled || ltb (length p) (i + 4)) _ _ (λ _. tt)
        λ a.
          OnSome-if _ (swap16 (load16 p (i + 2)) == port) _ _ (λ _. tt)
            λ _.
              let l = not-ltb→le _ _ (||-false (not enabled) (ltb (length p) (i + 4)) a).1 in
              (
                stored-length (swap16 port) i p h l,
                stored-first (swap16 port) i p h l,
                stored-address (swap16 port) i p h l,
                stored-bytes (swap16 port) i p h l,
              )

  pub rewrite_v4-Marks :
      (config : AppConfig) (p : Bytes)
      → OnSome (λ r. Marks p r.packet) (rewrite_v4 inet_ntop4 inet_ntop6 config p)
  unfolding rewrite_v4
  rewrite_v4-Marks config p =
      OnSome-if _ (ltb (length p) 20) _ _ (λ _. tt)
        λ _.
          OnSome-if _ (ltb (get_or p 0 0 % 16 * 4) 20 || ltb (length p) (get_or p 0 0 % 16 * 4)) _ _
            (λ _. tt)
            λ b.
              let h =
                not-ltb→le _ _
                  (||-false (ltb (get_or p 0 0 % 16 * 4) 20)
                    (ltb (length p) (get_or p 0 0 % 16 * 4)) b).0 in
              OnSome-if _ (load32 p 16 == htonl k_loopback_ipv4_network_order) _ _ (λ _. tt)
                λ _.
                  OnSome-if _ (get_or p 9 0 == k_protocol_tcp) _ _
                    (λ _.
                      redirect_v4-Marks k_protocol_tcp config.tcp_enabled config.tcp_listen_port p _
                        h)
                    (λ _.
                      OnSome-if _ (get_or p 9 0 == k_protocol_udp) _ _
                        (λ _.
                          redirect_v4-Marks k_protocol_udp config.udp_enabled config.udp_listen_port
                            p _ h)
                        (λ _. tt))

  pub rewrite_v4-again :
      (config : AppConfig) (p : Bytes)
      → load32 p 16 ≡ htonl k_loopback_ipv4_network_order
      → rewrite_v4 inet_ntop4 inet_ntop6 config p ≡ none
  unfolding rewrite_v4
  rewrite_v4-again config p e = rw (rewrite_v4, e) (ground arith)

  unfoldable pub Marks6 : Bytes → Bytes → Type 0
  Marks6 p q =
      (length q ≡ length p) × (get_or q 0 0 ≡ get_or p 0 0) × (substr q 24 16 ≡ k_loopback_ipv6)

  redirect_v6-Marks :
      (protocol : ℕ) (enabled : Bool) (port : ℕ) (p : Bytes)
      → OnSome (λ r. Marks6 p r.packet) (redirect_v6 inet_ntop4 inet_ntop6 protocol enabled port p)
  unfolding redirect_v6 Marks6
  redirect_v6-Marks protocol enabled port p =
      OnSome-if _ (not enabled || ltb (length p) 44) _ _ (λ _. tt)
        λ a.
          OnSome-if _ (swap16 (load16 p 42) == port) _ _ (λ _. tt)
            λ _.
              let l = not-ltb→le _ _ (||-false (not enabled) (ltb (length p) 44) a).1 in
              let q = write_at 42 (bytes16 (swap16 port)) p in
              let n = length-write_at 42 (bytes16 (swap16 port)) p in
              (
                length-write_at 24 k_loopback_ipv6 q ∙ n,
                get_or-write_before 24 k_loopback_ipv6 q 0 0 (omega arith)
                    ∙ get_or-write_before 42 (bytes16 (swap16 port)) p 0 0 (omega arith),
                substr-write_at 24 k_loopback_ipv6 q (omega (arith, n)),
              )

  pub rewrite_v6-Marks :
      (config : AppConfig) (p : Bytes)
      → OnSome (λ r. Marks6 p r.packet) (rewrite_v6 inet_ntop4 inet_ntop6 config p)
  unfolding rewrite_v6
  rewrite_v6-Marks config p =
      OnSome-if _ (ltb (length p) 40) _ _ (λ _. tt)
        λ _.
          OnSome-if _ (eqb (substr p 24 16) k_loopback_ipv6) _ _ (λ _. tt)
            λ _.
              OnSome-if _ (get_or p 6 0 == k_protocol_tcp) _ _
                (λ _. redirect_v6-Marks k_protocol_tcp config.tcp_enabled config.tcp_listen_port p)
                (λ _.
                  OnSome-if _ (get_or p 6 0 == k_protocol_udp) _ _
                    (λ _.
                      redirect_v6-Marks k_protocol_udp config.udp_enabled config.udp_listen_port p)
                    (λ _. tt))

  pub rewrite_v6-again :
      (config : AppConfig) (p : Bytes)
      → substr p 24 16 ≡ k_loopback_ipv6
      → rewrite_v6 inet_ntop4 inet_ntop6 config p ≡ none
  unfolding rewrite_v6
  rewrite_v6-again config p e =
      let t : eqb (substr p 24 16) k_loopback_ipv6 ≡ true = rw e (eqb_refl k_loopback_ipv6) in
      rw (rewrite_v6, t) (ground arith)
