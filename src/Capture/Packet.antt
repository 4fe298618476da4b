-- ===== src/Capture/Packet.antt =====
-- src/capture/win_divert_capture.cpp: `rewrite_packet_to_local_proxy`, on the bytes of a packet. The
-- program's platform is little-endian, so `htonl` and `htons` swap bytes. `InetNtopA` is a parameter.
pub mod Stores
pub mod Marks
pub mod Headers
pub mod Once
use network_proxy.Prelude.{
  ltb, ◌==◌, if◌then◌else◌, length, get_or, Bytes, codes, eqb, substr, ℕ, zero, suc, ◌+◌, ◌*◌, ◌/◌,
  ◌%◌, ◌^◌, Bool, true, false, not, ◌||◌, Option, none, some, [], ◌∷◌,
}
use network_proxy.Config.Types.{AppConfig}
use network_proxy.Capture.FlowTable.{FlowKey, Table, remember_mapping}

abbrev pub k_protocol_tcp : ℕ
k_protocol_tcp = 6

abbrev pub k_protocol_udp : ℕ
k_protocol_udp = 17

abbrev pub k_loopback_ipv4_network_order : ℕ
k_loopback_ipv4_network_order = 0x0100007F

abbrev pub k_loopback_ipv6 : Bytes
k_loopback_ipv6 = 0 ∷ 0 ∷ 0 ∷ 0 ∷ 0 ∷ 0 ∷ 0 ∷ 0 ∷ 0 ∷ 0 ∷ 0 ∷ 0 ∷ 0 ∷ 0 ∷ 0 ∷ 1 ∷ []

-- The sizes of `Ipv4Header`, `Ipv6Header`, and of `TcpHeader` and `UdpHeader`.
abbrev pub ipv4_header_size : ℕ
ipv4_header_size = 20

abbrev pub ipv6_header_size : ℕ
ipv6_header_size = 40

abbrev pub port_header_size : ℕ
port_header_size = 4

-- A `std::uint32_t` and a `std::uint16_t` in memory.
abbrev pub load32 : Bytes → ℕ → ℕ
load32 p i =
    get_or p i 0
    + (get_or p (i + 1) 0 * 2 ^ 8 + (get_or p (i + 2) 0 * 2 ^ 16 + get_or p (i + 3) 0 * 2 ^ 24))

abbrev pub bytes32 : ℕ → Bytes
bytes32 v = v % 256 ∷ (v / 2 ^ 8) % 256 ∷ (v / 2 ^ 16) % 256 ∷ (v / 2 ^ 24) % 256 ∷ []

abbrev pub load16 : Bytes → ℕ → ℕ
load16 p i = get_or p i 0 + get_or p (i + 1) 0 * 2 ^ 8

abbrev pub bytes16 : ℕ → Bytes
bytes16 v = v % 256 ∷ (v / 2 ^ 8) % 256 ∷ []

abbrev pub htonl : ℕ → ℕ
htonl v =
    v % 256 * 2 ^ 24
    + ((v / 2 ^ 8) % 256 * 2 ^ 16 + ((v / 2 ^ 16) % 256 * 2 ^ 8 + (v / 2 ^ 24) % 256))

-- `htons` and `ntohs`.
abbrev pub swap16 : ℕ → ℕ
swap16 v = v % 256 * 2 ^ 8 + (v / 2 ^ 8) % 256

-- A store of some bytes into the packet, in place.
unfoldable pub write_at : ℕ → Bytes → Bytes → Bytes
write_at i bytes [] = []
write_at zero [] (c ∷ packet) = c ∷ packet
write_at zero (b ∷ bytes) (c ∷ packet) = b ∷ write_at zero bytes packet
write_at (suc i) bytes (c ∷ packet) = c ∷ write_at i bytes packet

-- What a packet that is redirected gives: its new bytes, and the flow that is remembered.
pub record Redirect : Type 0 where
  pub packet : Bytes
  pub key : FlowKey
  pub destination_host : Bytes
  pub destination_port : ℕ

module _ (inet_ntop4 : ℕ → Option Bytes) (inet_ntop6 : Bytes → Option Bytes) where
  unfoldable pub ipv4_to_string : ℕ → Bytes
  ipv4_to_string address = elim (inet_ntop4 address) [ none ↦ codes "127.0.0.1" | some t ↦ t ]

  unfoldable pub ipv6_to_string : Bytes → Bytes
  ipv6_to_string address = elim (inet_ntop6 address) [ none ↦ codes "::1" | some t ↦ t ]

  -- The block for TCP, and the same for UDP, with the header at `ihl_bytes`.
  unfoldable pub redirect_v4 : ℕ → Bool → ℕ → Bytes → ℕ → Option Redirect
  redirect_v4 protocol enabled listen_port p ihl_bytes =
      if not enabled || ltb (length p) (ihl_bytes + port_header_size)
      then none
      else if swap16 (load16 p (ihl_bytes + 2)) == listen_port
      then none
      else some (record {
        packet =
            write_at 16 (bytes32 (htonl k_loopback_ipv4_network_order))
              (write_at (ihl_bytes + 2) (bytes16 (swap16 listen_port)) p);
        key = record {
          protocol = protocol;
          source_ip = ipv4_to_string (load32 p 12);
          source_port = swap16 (load16 p ihl_bytes);
        };
        destination_host = ipv4_to_string (load32 p 16);
        destination_port = swap16 (load16 p (ihl_bytes + 2));
      })

  unfoldable pub rewrite_v4 : AppConfig → Bytes → Option Redirect
  unfolding redirect_v4
  rewrite_v4 config p =
      let ihl_bytes = get_or p 0 0 % 16 * 4 in
      if ltb (length p) ipv4_header_size
      then none
      else if ltb ihl_bytes ipv4_header_size || ltb (length p) ihl_bytes
      then none
      else if load32 p 16 == htonl k_loopback_ipv4_network_order
      then none
      else if get_or p 9 0 == k_protocol_tcp
      then redirect_v4 k_protocol_tcp config.tcp_enabled config.tcp_listen_port p ihl_bytes
      else if get_or p 9 0 == k_protocol_udp
      then redirect_v4 k_protocol_udp config.udp_enabled config.udp_listen_port p ihl_bytes
      else none

  unfoldable pub redirect_v6 : ℕ → Bool → ℕ → Bytes → Option Redirect
  redirect_v6 protocol enabled listen_port p =
      if not enabled || ltb (length p) (ipv6_header_size + port_header_size)
      then none
      else if swap16 (load16 p 42) == listen_port
      then none
      else some (record {
        packet = write_at 24 k_loopback_ipv6 (write_at 42 (bytes16 (swap16 listen_port)) p);
        key = record {
          protocol = protocol;
          source_ip = ipv6_to_string (substr p 8 16);
          source_port = swap16 (load16 p 40);
        };
        destination_host = ipv6_to_string (substr p 24 16);
        destination_port = swap16 (load16 p 42);
      })

  unfoldable pub rewrite_v6 : AppConfig → Bytes → Option Redirect
  unfolding redirect_v6
  rewrite_v6 config p =
      if ltb (length p) ipv6_header_size
      then none
      else if eqb (substr p 24 16) k_loopback_ipv6
      then none
      else if get_or p 6 0 == k_protocol_tcp
      then redirect_v6 k_protocol_tcp config.tcp_enabled config.tcp_listen_port p
      else if get_or p 6 0 == k_protocol_udp
      then redirect_v6 k_protocol_udp config.udp_enabled config.udp_listen_port p
      else none

  -- What is done to a packet; `none` is the result `false`.
  unfoldable pub redirect_of : AppConfig → Bytes → Option Redirect
  unfolding rewrite_v4 rewrite_v6
  redirect_of config p =
      let version = get_or p 0 0 / 16 % 16 in
      if ltb (length p) 1
      then none
      else if version == 4
      then rewrite_v4 config p
      else if version == 6
      then rewrite_v6 config p
      else none

  -- The packet and the flow table behind the call, and its result, at the time `now`.
  unfoldable pub rewrite_packet_to_local_proxy :
      AppConfig → ℕ → Bytes → Table → Bytes × Table × Bool
  unfolding redirect_of
  rewrite_packet_to_local_proxy config now p table = elim (redirect_of config p) [
    | none ↦ (p, table, false)
    | some r ↦
        (r.packet, remember_mapping now r.key r.destination_host r.destination_port table, true)
  ]
