-- ===== src/Transport/Connect.antt =====
-- src/transport/tcp_proxy_server.cpp: `parse_connect_authority`.
pub mod Tunnel
use network_proxy.Prelude.{
  leb, ◌==◌, if◌then◌else◌, option_map, is_empty, take, drop, Bytes, codes, find, find_char,
  rfind_char, substr, to_lower_byte, stoul, ℕ, ◌+◌, ◌%◌, ◌^◌, Bool, true, false, not, ◌&&◌, Option,
  none, some, [], ◌∷◌,
}

-- The server's own copy.
unfoldable pub starts_with_ignore_case : Bytes → Bytes → Bool
starts_with_ignore_case value [] = true
starts_with_ignore_case [] (d ∷ prefix) = false
starts_with_ignore_case (c ∷ value) (d ∷ prefix) =
    to_lower_byte c == to_lower_byte d && starts_with_ignore_case value prefix

-- The part from `authority` on: host and port.
unfoldable pub split_authority : Bytes → Option (Bytes × ℕ)
split_authority authority = elim (rfind_char authority b':') [
  | none ↦ some (authority, 443)
  | some colon_position ↦
      let host = take colon_position authority in
      if is_empty host
      then none
      else option_map (λ port. (host, port % 2 ^ 16)) (stoul (drop (colon_position + 1) authority))
]

-- From `first_line` on.
unfoldable pub parse_first_line : Bytes → Option (Bytes × ℕ)
unfolding split_authority
parse_first_line first_line =
    if not (starts_with_ignore_case first_line (codes "CONNECT "))
    then none
    else elim (find_char (drop 8 first_line) b' ') [
      | none ↦ none
      | some n ↦ if leb (8 + n) 8 then none else split_authority (substr first_line 8 n)
    ]

unfoldable pub parse_connect_authority : Bytes → Option (Bytes × ℕ)
unfolding parse_first_line
parse_connect_authority http_request = elim (find http_request (codes "\r\n")) [
  | none ↦ none
  | some line_end ↦ parse_first_line (take line_end http_request)
]
