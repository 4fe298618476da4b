-- ===== src/Tls/Sni.antt =====
-- src/tls/https_mitm_proxy.cpp: `try_extract_sni_from_client_hello`. A read behind the end of the
-- data is `overrun`, and `spent` means that the fuel of a loop ran out. Sizes and offsets stay far
-- below the range of `std::size_t`: a length field has 24 bits at most.
pub mod InBounds
pub mod Names
pub mod Hello
use network_proxy.Prelude.{
  ltb, leb, ◌==◌, if◌then◌else◌, length, get_elem?, Bytes, substr, ℕ, zero, suc, ◌+◌, ◌*◌, true,
  false, not, ◌||◌, none, some,
}

pub data Outcome : Type 0 where
  found : Bytes → Outcome
  refused fell_through overrun spent : Outcome

unfoldable pub read_u8 : Bytes → ℕ → (ℕ → Outcome) → Outcome
read_u8 data_bytes i k = elim (get_elem? data_bytes i) [ none ↦ overrun | some b ↦ k b ]

unfoldable pub read_u16 : Bytes → ℕ → (ℕ → Outcome) → Outcome
read_u16 data_bytes i k =
    read_u8 data_bytes i λ high. read_u8 data_bytes (i + 1) λ low. k (high * 256 + low)

unfoldable pub read_u24 : Bytes → ℕ → (ℕ → Outcome) → Outcome
read_u24 data_bytes i k =
    read_u8 data_bytes i λ high. read_u16 data_bytes (i + 1) λ low. k (high * 65536 + low)

-- `server_name.assign(data + offset, name_length); return !server_name.empty()`
unfoldable pub assign_name : Bytes → ℕ → ℕ → Outcome
assign_name data_bytes offset name_length =
    if ltb (length data_bytes) (offset + name_length)
    then overrun
    else if name_length == 0
    then refused
    else found (substr data_bytes offset name_length)

-- The inner loop, over the names of the server name extension.
unfoldable pub name_loop : ℕ → Bytes → ℕ → ℕ → Outcome
name_loop zero data_bytes sni_offset sni_end = spent
name_loop (suc fuel) data_bytes sni_offset sni_end = elim (leb (sni_offset + 3) sni_end) [
  | false ↦ fell_through
  | true ↦ read_u8 data_bytes sni_offset λ name_type.
      read_u16 data_bytes (sni_offset + 1) λ name_length.
        let more = name_loop fuel data_bytes (sni_offset + 3 + name_length) sni_end in
        if ltb sni_end (sni_offset + 3 + name_length)
        then refused
        else if name_type == 0
        then assign_name data_bytes (sni_offset + 3) name_length
        else more
]

-- The block `if (extension_type == 0x0000)`, at the extension's contents.
unfoldable pub server_names : Bytes → ℕ → ℕ → ℕ → Outcome
server_names data_bytes offset extension_length extensions_end =
    if ltb extensions_end (offset + 2)
    then refused
    else read_u16 data_bytes offset λ sni_list_length.
      name_loop (length data_bytes + 1) data_bytes (offset + 2) (
        if ltb (offset + 2 + sni_list_length) (offset + extension_length)
        then offset + 2 + sni_list_length
        else offset + extension_length)

-- The loop over the extensions.
unfoldable pub extension_loop : ℕ → Bytes → ℕ → ℕ → Outcome
extension_loop zero data_bytes offset extensions_end = spent
extension_loop (suc fuel) data_bytes offset extensions_end =
    elim (leb (offset + 4) extensions_end) [
      | false ↦ refused
      | true ↦ read_u16 data_bytes offset λ extension_type.
          read_u16 data_bytes (offset + 2) λ extension_length.
            let more =
              extension_loop fuel data_bytes (offset + 4 + extension_length) extensions_end in
            let names = server_names data_bytes (offset + 4) extension_length extensions_end in
            if ltb extensions_end (offset + 4 + extension_length)
            then refused
            else if extension_type == 0
            then elim names [
              | fell_through ↦ more
              | found name ↦ found name
              | refused ↦ refused
              | overrun ↦ overrun
              | spent ↦ spent
            ]
            else more
    ]

-- The tests and jumps in front of the loop, each behind the test that guards its reads.
unfoldable pub extensions : Bytes → ℕ → Outcome
extensions data_bytes offset =
    if ltb (length data_bytes) (offset + 2)
    then refused
    else read_u16 data_bytes offset λ extensions_length.
      extension_loop (length data_bytes + 1) data_bytes (offset + 2) (
        if ltb (offset + 2 + extensions_length) (length data_bytes)
        then offset + 2 + extensions_length
        else length data_bytes)

unfoldable pub compression_methods : Bytes → ℕ → Outcome
compression_methods data_bytes offset =
    if ltb (length data_bytes) (offset + 1)
    then refused
    else read_u8 data_bytes offset λ n. extensions data_bytes (offset + (1 + n))

unfoldable pub cipher_suites : Bytes → ℕ → Outcome
cipher_suites data_bytes offset =
    if ltb (length data_bytes) (offset + 2)
    then refused
    else read_u16 data_bytes offset λ n. compression_methods data_bytes (offset + (2 + n))

unfoldable pub session_id : Bytes → ℕ → Outcome
session_id data_bytes offset =
    if ltb (length data_bytes) (offset + 1)
    then refused
    else read_u8 data_bytes offset λ n. cipher_suites data_bytes (offset + (1 + n))

-- From the handshake header at offset 5 to the session id behind the 34 bytes of version and random.
unfoldable pub handshake : Bytes → Outcome
handshake data_bytes =
    if ltb (length data_bytes) 9
    then refused
    else read_u24 data_bytes 6 λ handshake_length.
      if ltb (length data_bytes) (9 + handshake_length)
      then refused
      else if ltb (length data_bytes) (9 + 34)
      then refused
      else session_id data_bytes 43

unfoldable pub try_extract_sni_from_client_hello : Bytes → Outcome
unfolding handshake session_id cipher_suites compression_methods extensions
try_extract_sni_from_client_hello data_bytes =
    if ltb (length data_bytes) 5
    then refused
    else read_u8 data_bytes 0 λ b₀. read_u8 data_bytes 1 λ b₁.
      if not (b₀ == 0x16) || not (b₁ == 0x03)
      then refused
      else if ltb (length data_bytes) 9
      then refused
      else read_u8 data_bytes 5 λ b₅. if not (b₅ == 0x01) then refused else handshake data_bytes
