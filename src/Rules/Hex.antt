-- ===== src/Rules/Hex.antt =====
-- src/rules/rule_engine.cpp: `decode_hex_string`.
pub mod RoundTrip
use network_proxy.Prelude.{
  leb, ◌==◌, if◌then◌else◌, ◌>>=◌, option_map, length, is_empty, drop, Bytes, codes, starts_with,
  is_space, to_lower_byte, ℕ, ◌+◌, ◌-◌, ◌*◌, ◌%◌, not, ◌&&◌, ◌||◌, Option, none, some, [], ◌∷◌,
}

-- The first loop: white space and dashes go, the rest is lowered.
unfoldable pub normalize : Bytes → Bytes
normalize [] = []
normalize (ch ∷ text) =
    let rest = normalize text in if is_space ch || ch == b'-' then rest else to_lower_byte ch ∷ rest

abbrev pub strip_0x : Bytes → Bytes
strip_0x text = if starts_with text (codes "0x") then drop 2 text else text

-- `none` is the result -1.
unfoldable pub nibble : ℕ → Option ℕ
nibble c =
    if leb b'0' c && leb c b'9'
    then some (c - b'0')
    else if leb b'a' c && leb c b'f'
    then some (10 + (c - b'a'))
    else none

-- The second loop, on an even number of characters.
unfoldable pub decode_pairs : Bytes → Option Bytes
unfolding nibble
decode_pairs [] = some []
decode_pairs (c ∷ []) = none
decode_pairs (c ∷ d ∷ text) =
    let rest = decode_pairs text in
    nibble c >>= λ high. nibble d >>= λ low. option_map (λ bytes. (high * 16 + low) ∷ bytes) rest

-- `none` is the result `false`; otherwise the bytes that are stored.
unfoldable pub decode_hex_string : Bytes → Option Bytes
unfolding normalize decode_pairs
decode_hex_string text =
    let normalized = strip_0x (normalize text) in
    if is_empty normalized
    then some []
    else if not (length normalized % 2 == 0)
    then none
    else decode_pairs normalized
