-- ===== src/Capture/Packet/Headers.antt =====
-- The headers of a packet as RFC 791 and RFC 8200 lay them out, with the ports of TCP and UDP, and
-- what the capture takes from them.
use network_proxy.Prelude.{
  ltb, ◌==◌, if◌then◌else◌, OnSome, OnSome-if, length, get_or, Bytes, codes, eqb, substr, ℕ, zero,
  suc, ◌+◌, ◌*◌, ◌/◌, ◌%◌, ◌<◌, ◌≡◌, refl, sym, ◌∙◌, Bool, true, false, not, ◌&&◌, ◌||◌, Option,
  none, some, [], ◌∷◌, arith,
}
use network_proxy.Config.Types.{AppConfig}
use network_proxy.Capture.FlowTable.{FlowKey}
use network_proxy.Capture.Packet.{
  Redirect, k_protocol_tcp, k_protocol_udp, k_loopback_ipv4_network_order, k_loopback_ipv6, htonl,
  load16, load32, swap16, ipv4_to_string, ipv6_to_string, redirect_v4, redirect_v6, rewrite_v4,
  rewrite_v6, redirect_of,
}

-- Each element is a byte.
abbrev pub are_bytes : Bytes → Bool
are_bytes [] = true
are_bytes (c ∷ p) = ltb c 256 && are_bytes p

-- A port, the high byte first.
abbrev pub port_at : Bytes → ℕ → ℕ
port_at p i = get_or p i 0 * 256 + get_or p (i + 1) 0

-- An `in_addr`, the four bytes of an address in the order of memory.
abbrev pub in_addr_at : Bytes → ℕ → ℕ
in_addr_at p i =
    get_or p i 0
    + get_or p (i + 1) 0 * 256
    + get_or p (i + 2) 0 * 65536
    + get_or p (i + 3) 0 * 16777216

abbrev pub is_ipv4 : Bytes → Bool
is_ipv4 p = get_or p 0 0 / 16 == 4

-- Where the ports begin: behind the header and its options.
abbrev pub ports_at : Bytes → ℕ
ports_at p = if is_ipv4 p then get_or p 0 0 % 16 * 4 else 40

abbrev text_or : Bytes → Option Bytes → Bytes
text_or other none = other
text_or other (some text) = text

module _ (inet_ntop4 : ℕ → Option Bytes) (inet_ntop6 : Bytes → Option Bytes) where
  -- The text of an IPv4 address, and of an IPv6 address.
  abbrev text4 : Bytes → ℕ → Bytes
  text4 p i = text_or (codes "127.0.0.1") (inet_ntop4 (in_addr_at p i))

  abbrev text6 : Bytes → ℕ → Bytes
  text6 p i = text_or (codes "::1") (inet_ntop6 (substr p i 16))

  -- The flow that a packet belongs to.
  abbrev pub flow_of : Bytes → FlowKey
  flow_of p = record {
    protocol = if is_ipv4 p then get_or p 9 0 else get_or p 6 0;
    source_ip = if is_ipv4 p then text4 p 12 else text6 p 8;
    source_port = port_at p (ports_at p);
  }

  -- The host and the port that it is sent to.
  abbrev pub destination_of : Bytes → Bytes × ℕ
  destination_of p = (if is_ipv4 p then text4 p 16 else text6 p 24, port_at p (ports_at p + 2))

  abbrev pub Says : Bytes → Redirect → Type 0
  Says p r = (r.key ≡ flow_of p) × ((r.destination_host, r.destination_port) ≡ destination_of p)

  ipv4_to_string-text :
      (p : Bytes) (i : ℕ) → ipv4_to_string inet_ntop4 inet_ntop6 (load32 p i) ≡ text4 p i
  unfolding ipv4_to_string
  ipv4_to_string-text p i = let e : load32 p i ≡ in_addr_at p i = omega arith in rw e refl

  ipv6_to_string-text :
      (p : Bytes) (i : ℕ) → ipv6_to_string inet_ntop4 inet_ntop6 (substr p i 16) ≡ text6 p i
  unfolding ipv6_to_string
  ipv6_to_string-text p i = refl

get_or-byte : (p : Bytes) (i : ℕ) → are_bytes p ≡ true → get_or p i 0 < 256
get_or-byte [] i h = omega arith
get_or-byte (c ∷ p) zero h = ground (arith, h)
get_or-byte (c ∷ p) (suc i) h = get_or-byte p i (ground (arith, h))

port_at-swap16 : (p : Bytes) (i : ℕ) → are_bytes p ≡ true → swap16 (load16 p i) ≡ port_at p i
port_at-swap16 p i h = omega (arith, get_or-byte p i h, get_or-byte p (i + 1) h)

==-≡ : (m n : ℕ) → (m == n) ≡ true → m ≡ n
==-≡ m n h = ground (arith, h)

version-ipv4 : (p : Bytes) → are_bytes p ≡ true → (get_or p 0 0 / 16 % 16 == 4) ≡ is_ipv4 p
version-ipv4 p h =
    let e : get_or p 0 0 / 16 % 16 ≡ get_or p 0 0 / 16 = omega (arith, get_or-byte p 0 h) in
    rw e refl

module _ (inet_ntop4 : ℕ → Option Bytes) (inet_ntop6 : Bytes → Option Bytes) (p : Bytes)
    (h : are_bytes p ≡ true) where
  redirect_v4-Says :
      (protocol : ℕ) (enabled : Bool) (port : ℕ)
      → is_ipv4 p ≡ true
      → get_or p 9 0 ≡ protocol
      → OnSome
          (Says inet_ntop4 inet_ntop6 p)
          (redirect_v4 inet_ntop4 inet_ntop6 protocol enabled port p (get_or p 0 0 % 16 * 4))
  unfolding redirect_v4
  redirect_v4-Says protocol enabled port v e =
      let at = get_or p 0 0 % 16 * 4 in
      OnSome-if _ (not enabled || ltb (length p) (at + 4)) _ _ (λ _. tt)
        λ _.
          OnSome-if _ (swap16 (load16 p (at + 2)) == port) _ _ (λ _. tt)
            λ _.
              rw
                (
                  v,
                  e,
                  port_at-swap16 p at h,
                  port_at-swap16 p (at + 2) h,
                  ipv4_to_string-text inet_ntop4 inet_ntop6 p 12,
                  ipv4_to_string-text inet_ntop4 inet_ntop6 p 16,
                )
                (refl, refl)

  redirect_v6-Says :
      (protocol : ℕ) (enabled : Bool) (port : ℕ)
      → is_ipv4 p ≡ false
      → get_or p 6 0 ≡ protocol
      → OnSome
          (Says inet_ntop4 inet_ntop6 p)
          (redirect_v6 inet_ntop4 inet_ntop6 protocol enabled port p)
  unfolding redirect_v6
  redirect_v6-Says protocol enabled port v e =
      OnSome-if _ (not enabled || ltb (length p) 44) _ _ (λ _. tt)
        λ _.
          OnSome-if _ (swap16 (load16 p 42) == port) _ _ (λ _. tt)
            λ _.
              rw
                (
                  v,
                  e,
                  port_at-swap16 p 40 h,
                  port_at-swap16 p 42 h,
                  ipv6_to_string-text inet_ntop4 inet_ntop6 p 8,
                  ipv6_to_string-text inet_ntop4 inet_ntop6 p 24,
                )
                (refl, refl)

  rewrite_v4-Says :
      (config : AppConfig)
      → is_ipv4 p ≡ true
      → OnSome (Says inet_ntop4 inet_ntop6 p) (rewrite_v4 inet_ntop4 inet_ntop6 config p)
  unfolding rewrite_v4
  rewrite_v4-Says config v =
      OnSome-if _ (ltb (length p) 20) _ _ (λ _. tt)
        λ _.
          OnSome-if _ (ltb (get_or p 0 0 % 16 * 4) 20 || ltb (length p) (get_or p 0 0 % 16 * 4)) _ _
            (λ _. tt)
            λ _.
              OnSome-if _ (load32 p 16 == htonl k_loopback_ipv4_network_order) _ _ (λ _. tt)
                λ _.
                  OnSome-if _ (get_or p 9 0 == k_protocol_tcp) _ _
                    (λ e.
                      redirect_v4-Says k_protocol_tcp config.tcp_enabled config.tcp_listen_port v
                        (==-≡ _ _ e))
                    (λ _.
                      OnSome-if _ (get_or p 9 0 == k_protocol_udp) _ _
                        (λ e.
                          redirect_v4-Says k_protocol_udp config.udp_enabled config.udp_listen_port
                            v (==-≡ _ _ e))
                        (λ _. tt))

  rewrite_v6-Says :
      (config : AppConfig)
      → is_ipv4 p ≡ false
      → OnSome (Says inet_ntop4 inet_ntop6 p) (rewrite_v6 inet_ntop4 inet_ntop6 config p)
  unfolding rewrite_v6
  rewrite_v6-Says config v =
      OnSome-if _ (ltb (length p) 40) _ _ (λ _. tt)
        λ _.
          OnSome-if _ (eqb (substr p 24 16) k_loopback_ipv6) _ _ (λ _. tt)
            λ _.
              OnSome-if _ (get_or p 6 0 == k_protocol_tcp) _ _
                (λ e.
                  redirect_v6-Says k_protocol_tcp config.tcp_enabled config.tcp_listen_port v
                    (==-≡ _ _ e))
                (λ _.
                  OnSome-if _ (get_or p 6 0 == k_protocol_udp) _ _
                    (λ e.
                      redirect_v6-Says k_protocol_udp config.udp_enabled config.udp_listen_port v
                        (==-≡ _ _ e))
                    (λ _. tt))

  -- What the capture remembers of a packet is what the headers say.
  pub redirect_of-Says :
      (config : AppConfig)
      → OnSome (Says inet_ntop4 inet_ntop6 p) (redirect_of inet_ntop4 inet_ntop6 config p)
  unfolding redirect_of
  redirect_of-Says config =
      OnSome-if _ (ltb (length p) 1) _ _ (λ _. tt)
        λ _.
          OnSome-if _ (get_or p 0 0 / 16 % 16 == 4) _ _
            (λ v. rewrite_v4-Says config (sym (version-ipv4 p h) ∙ v))
            (λ v.
              OnSome-if _ (get_or p 0 0 / 16 % 16 == 6) _ _
                (λ _. rewrite_v6-Says config (sym (version-ipv4 p h) ∙ v)) (λ _. tt))
