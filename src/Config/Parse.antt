-- ===== src/Config/Parse.antt =====
-- src/config/app_config.cpp: the value parsers. `none` is the result `false`.
use network_proxy.Prelude.{
  ltb, if◌then◌else◌, option_map, Bytes, codes, eqb, stoul, ℕ, ◌%◌, ◌^◌, Bool, true, false, Option,
  none, some,
}
use network_proxy.Common.{trim_copy, to_lower_copy}

unfoldable pub parse_bool : Bytes → Option Bool
parse_bool value =
    let normalized = to_lower_copy (trim_copy value) in
    if eqb normalized (codes "true")
    then some true
    else if eqb normalized (codes "false")
    then some false
    else none

unfoldable pub parse_u16 : Bytes → Option ℕ
parse_u16 value = elim (stoul (trim_copy value)) [
  | none ↦ none
  | some numeric_value ↦ if ltb 65535 numeric_value then none else some numeric_value
]

-- `unsigned long` has 32 bits, so the cast keeps every value.
unfoldable pub parse_u32 : Bytes → Option ℕ
parse_u32 value = option_map (λ v. v % 2 ^ 32) (stoul (trim_copy value))
