-- ===== src/Patch/Bytes.antt =====
-- src/patch/patch_engine.cpp: the engine's own `replace_all` and `decode_hex_string`.
use network_proxy.Prelude.{
  leb, ◌==◌, if◌then◌else◌, ◌>>=◌, option_map, length, is_empty, take, drop, Bytes, codes,
  starts_with, find_from, is_space, to_lower_byte, ℕ, zero, suc, ◌+◌, ◌-◌, ◌*◌, ◌%◌, not, ◌&&◌,
  ◌||◌, Option, none, some, [], ◌∷◌, ◌++◌,
}

unfoldable pub replace_loop : ℕ → Bytes → Bytes → Bytes → ℕ → ℕ → Option (Bytes × ℕ)
replace_loop zero payload find_text replace_text search_position count = none
replace_loop (suc fuel) payload find_text replace_text search_position count =
    elim (find_from payload find_text search_position) [
      | none ↦ some (payload, count)
      | some at ↦
          replace_loop fuel
            (take at payload ++ (replace_text ++ drop (at + length find_text) payload)) find_text
            replace_text (at + length replace_text) (count + 1)
    ]

unfoldable pub replace_all : Bytes → Bytes → Bytes → Option (Bytes × ℕ)
unfolding replace_loop
replace_all payload find_text replace_text =
    if is_empty find_text
    then some (payload, 0)
    else replace_loop (length payload + 1) payload find_text replace_text 0 0

unfoldable pub normalize : Bytes → Bytes
normalize [] = []
normalize (character ∷ value) =
    let rest = normalize value in
    if is_space character || character == b'-' then rest else to_lower_byte character ∷ rest

unfoldable pub normalize_hex_string : Bytes → Bytes
unfolding normalize
normalize_hex_string value =
    let normalized = normalize value in
    if starts_with normalized (codes "0x") then drop 2 normalized else normalized

unfoldable pub hex_to_nibble : ℕ → Option ℕ
hex_to_nibble character =
    if leb b'0' character && leb character b'9'
    then some (character - b'0')
    else if leb b'a' character && leb character b'f'
    then some (10 + (character - b'a'))
    else none

unfoldable pub decode_pairs : Bytes → Option Bytes
unfolding hex_to_nibble
decode_pairs [] = some []
decode_pairs (c ∷ []) = none
decode_pairs (c ∷ d ∷ text) =
    let rest = decode_pairs text in
    hex_to_nibble c >>= λ high.
    hex_to_nibble d >>= λ low. option_map (λ bytes. (high * 16 + low) ∷ bytes) rest

unfoldable pub decode_hex_string : Bytes → Option Bytes
unfolding normalize_hex_string decode_pairs
decode_hex_string value =
    let normalized = normalize_hex_string value in
    if is_empty normalized
    then some []
    else if not (length normalized % 2 == 0)
    then none
    else decode_pairs normalized
