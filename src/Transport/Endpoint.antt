-- ===== src/Transport/Endpoint.antt =====
-- src/transport/socket_utils.cpp: the choice of an address, and the texts of one. `getaddrinfo` and
-- `InetNtopA` are parameters.
use network_proxy.Prelude.{
  ltb, ◌==◌, if◌then◌else◌, Bytes, ℕ, not, ◌&&◌, ◌||◌, Option, none, some, List, [], ◌∷◌,
}
use network_proxy.Capture.Packet.{swap16}

-- The port is in network order.
pub record SockAddr : Type 0 where
  pub sa_family : ℕ
  pub address : Bytes
  pub port_field : ℕ

-- An item of the list that `getaddrinfo` gives; the address `none` is `nullptr`.
pub record AddrInfo : Type 0 where
  pub ai_family : ℕ
  pub ai_addrlen : ℕ
  pub ai_addr : Option SockAddr

abbrev pub af_inet : ℕ
af_inet = 2

abbrev pub af_inet6 : ℕ
af_inet6 = 23

-- `sizeof(sockaddr_storage)`
abbrev pub storage_size : ℕ
storage_size = 128

-- What a round of the loop copies; `none` is `continue`.
unfoldable pub copied : AddrInfo → Option SockAddr
copied item = elim item.ai_addr [
  | none ↦ none
  | some endpoint ↦
      if not (item.ai_family == af_inet) && not (item.ai_family == af_inet6)
      then none
      else if ltb storage_size item.ai_addrlen
      then none
      else some endpoint
]

unfoldable pub first_copied : List AddrInfo → Option SockAddr
unfolding copied
first_copied [] = none
first_copied (item ∷ items) =
    let rest = first_copied items in elim (copied item) [ none ↦ rest | some e ↦ some e ]

-- The endpoint, where the result is `true`; `getaddrinfo` gives `none` where it fails.
unfoldable pub resolve_endpoint : (Bytes → ℕ → Option (List AddrInfo)) → Bytes → ℕ → Option SockAddr
unfolding first_copied
resolve_endpoint getaddrinfo host port = elim (getaddrinfo host port) [
  | none ↦ none
  | some items ↦ first_copied items
]

-- `InetNtopA` takes the family and the address.
unfoldable pub endpoint_ip_to_string : (ℕ → Bytes → Option Bytes) → SockAddr → Bytes
endpoint_ip_to_string inet_ntop endpoint =
    if endpoint.sa_family == af_inet || endpoint.sa_family == af_inet6
    then elim (inet_ntop endpoint.sa_family endpoint.address) [ none ↦ [] | some text ↦ text ]
    else []

unfoldable pub endpoint_port : SockAddr → ℕ
endpoint_port endpoint =
    if endpoint.sa_family == af_inet || endpoint.sa_family == af_inet6
    then swap16 endpoint.port_field
    else 0
