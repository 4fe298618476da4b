-- ===== src/Transport/Reassembly.antt =====
-- src/transport/tcp_reassembly_buffer.cpp: the buffer is its bytes. `std::size_t` has 64 bits.
pub mod Frames
use network_proxy.Prelude.{
  ltb, if◌then◌else◌, length, take, drop, Bytes, codes, find, find_from, substr, to_lower_byte,
  stoull, ℕ, ◌+◌, ◌-◌, ◌%◌, ◌^◌, Option, none, some, [], ◌++◌, map,
}

abbrev pub size_mod : ℕ
size_mod = 2 ^ 64

unfoldable pub append : Bytes → Bytes → Bytes
append buffer chunk = buffer ++ chunk

-- The output and the buffer that is left.
unfoldable pub take_all : Bytes → Bytes × Bytes
take_all buffer = (buffer, [])

abbrev pub blank_line : Bytes
blank_line = codes "\r\n\r\n"

abbrev pub length_key : Bytes
length_key = codes "content-length:"

-- An exception of `stoull` is caught, and gives 0.
unfoldable pub parse_content_length : Bytes → ℕ
parse_content_length headers =
    let lower_headers = map to_lower_byte headers in
    elim (find lower_headers length_key) [
      | none ↦ 0
      | some key_position ↦ elim (find_from lower_headers (codes "\r\n") key_position) [
        | none ↦ 0
        | some line_end ↦
            let value_begin = key_position + length length_key in
            elim (stoull (substr lower_headers value_begin (line_end - value_begin))) [
              | none ↦ 0
              | some n ↦ n
            ]
      ]
    ]

-- `header_end + 4 + content_length`, as a `std::size_t`.
unfoldable pub message_length : Bytes → ℕ → ℕ
unfolding parse_content_length
message_length buffer header_end =
    (header_end + 4 + parse_content_length (take (header_end + 4) buffer)) % size_mod

-- The message and the buffer that is left; `none` is the result `false`.
unfoldable pub try_take_http_message : Bytes → Option (Bytes × Bytes)
unfolding message_length
try_take_http_message buffer = elim (find buffer blank_line) [
  | none ↦ none
  | some header_end ↦
      let n = message_length buffer header_end in
      if ltb (length buffer) n then none else some (take n buffer, drop n buffer)
]
