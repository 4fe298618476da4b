-- ===== src/Rules/Text.antt =====
-- src/rules/rule_engine.cpp: the engine's own text helpers.
use network_proxy.Prelude.{
  ltb, leb, ◌==◌, if◌then◌else◌, length, get_or, take, drop, Bytes, find_char, substr,
  ends_with_char, to_lower_byte, stoul, ℕ, ◌+◌, ◌-◌, ◌&&◌, ◌||◌, Option, none, some, map,
}
use network_proxy.Common.{skip_front, skip_back}

unfoldable pub to_lower : Bytes → Bytes
to_lower text = map to_lower_byte text

unfoldable pub trim : Bytes → Bytes
unfolding skip_front skip_back
trim text =
    let begin = skip_front text 0 in
    let end = skip_back text begin (length text) in substr text begin (end - begin)

unfoldable pub unquote : Bytes → Bytes
unquote text =
    if leb 2 (length text)
      && ((get_or text 0 0 == b'"' && ends_with_char text b'"')
          || (get_or text 0 0 == b'\'' && ends_with_char text b'\''))
    then substr text 1 (length text - 2)
    else text

-- `none` is the result `false`; otherwise the value that is stored.
unfoldable pub parse_u16 : Bytes → Option ℕ
parse_u16 text = elim (stoul text) [
  | none ↦ none
  | some parsed ↦ if ltb 65535 parsed then none else some parsed
]

unfoldable pub strip_comment : Bytes → Bytes
strip_comment line = elim (find_char line b'#') [ none ↦ line | some pos ↦ take pos line ]

unfoldable pub split_key_value : Bytes → Option (Bytes × Bytes)
split_key_value line = elim (find_char line b'=') [
  | none ↦ none
  | some pos ↦ some (take pos line, drop (pos + 1) line)
]
