-- ===== src/Rules/Replace.antt =====
-- src/rules/rule_engine.cpp: `replace_all`, its loop on fuel; `none` means that the fuel ran out.
pub mod OnePass
use network_proxy.Prelude.{
  if◌then◌else◌, length, is_empty, take, drop, Bytes, find_from, ℕ, zero, suc, ◌+◌, Option, none,
  some, ◌++◌,
}

-- `source.replace(offset, n, text)`
abbrev pub splice : Bytes → ℕ → ℕ → Bytes → Bytes
splice source offset n text = take offset source ++ (text ++ drop (offset + n) source)

unfoldable pub replace_loop : ℕ → Bytes → Bytes → Bytes → ℕ → ℕ → Option (Bytes × ℕ)
replace_loop zero source find_text replace_text offset count = none
replace_loop (suc fuel) source find_text replace_text offset count =
    elim (find_from source find_text offset) [
      | none ↦ some (source, count)
      | some at ↦
          replace_loop fuel (splice source at (length find_text) replace_text) find_text
            replace_text (at + length replace_text) (count + 1)
    ]

-- The new text, and the number of replacements.
unfoldable pub replace_all : Bytes → Bytes → Bytes → Option (Bytes × ℕ)
unfolding replace_loop
replace_all source find_text replace_text =
    if is_empty find_text
    then some (source, 0)
    else replace_loop (length source + 1) source find_text replace_text 0 0
