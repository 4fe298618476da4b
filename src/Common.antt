-- ===== src/Common.antt =====
-- src/common/string_utils.cpp: trimming, lower case and splitting at a delimiter.
pub mod Trim
pub mod Handles
use network_proxy.Prelude.{
  ltb, if◌then◌else◌, length, get_or, take, drop, Bytes, find_char, substr, is_space, to_lower_byte,
  ℕ, zero, suc, ◌+◌, ◌-◌, ◌&&◌, Option, none, some, [], ◌∷◌, map,
}

-- `while (begin < end && isspace(value[begin])) ++begin`
unfoldable pub skip_front : Bytes → ℕ → ℕ
skip_front [] begin = begin
skip_front (c ∷ s) begin = let rest = skip_front s (begin + 1) in if is_space c then rest else begin

-- `while (end > begin && isspace(value[end - 1])) --end`
unfoldable pub skip_back : Bytes → ℕ → ℕ → ℕ
skip_back value begin zero = zero
skip_back value begin (suc last) =
    let rest = skip_back value begin last in
    if ltb begin (suc last) && is_space (get_or value last 0) then rest else suc last

unfoldable pub trim_copy : Bytes → Bytes
unfolding skip_front skip_back
trim_copy value =
    let begin = skip_front value 0 in
    let end = skip_back value begin (length value) in substr value begin (end - begin)

unfoldable pub to_lower_copy : Bytes → Bytes
to_lower_copy value = map to_lower_byte value

unfoldable pub split_once : Bytes → ℕ → Option (Bytes × Bytes)
split_once value delimiter = elim (find_char value delimiter) [
  | none ↦ none
  | some position ↦ some (take position value, drop (position + 1) value)
]
