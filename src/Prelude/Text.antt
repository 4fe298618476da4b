-- ===== src/Prelude/Text.antt =====
-- Byte strings: what `std::string`, `std::getline`, `std::isspace`, `std::tolower`, `std::stoul`
-- and `std::to_string` do, in the "C" locale.
pub mod Decimal
pub mod Lines
use Prim.Native.Nat.{ℕ, zero, suc, ◌+◌, ◌-◌, ◌*◌, ◌/◌, ◌%◌, ◌^◌}
use Prim.Native.Char.{code}
use Prim.Native.String.{String}
use mathlib.Core.Bool.{Bool, true, false, ◌&&◌, ◌||◌}
use mathlib.Core.List.{List, [], ◌∷◌}
use mathlib.Core.Option.{Option, none, some}
use network_proxy.Prelude.Tests.{ltb, leb, ◌==◌, if◌then◌else◌, option_map}
use network_proxy.Prelude.Lists.{length, take, drop, is_empty}

abbrev pub Bytes : Type 0
Bytes = List ℕ

-- The bytes of an ASCII literal.
abbrev pub codes : String → Bytes
codes String.[] = []
codes (String.◌∷◌ c s) = code c ∷ codes s

-- `a == b` on strings.
abbrev pub eqb : Bytes → Bytes → Bool
eqb [] [] = true
eqb (c ∷ s) (d ∷ t) = c == d && eqb s t
eqb _ _ = false

-- `text.starts_with(prefix)`.
abbrev pub starts_with : Bytes → Bytes → Bool
starts_with s [] = true
starts_with [] (d ∷ p) = false
starts_with (c ∷ s) (d ∷ p) = c == d && starts_with s p

-- `text.find(pattern)`; `none` is npos.
unfoldable pub find : Bytes → Bytes → Option ℕ
find [] p = if is_empty p then some 0 else none
find (c ∷ s) p =
    let rest = find s p in if starts_with (c ∷ s) p then some 0 else option_map suc rest

-- `text.find(pattern, position)`.
unfoldable pub find_from : Bytes → Bytes → ℕ → Option ℕ
find_from s p position =
    if leb position (length s)
    then option_map (λ i. position + i) (find (drop position s) p)
    else none

-- `text.find(character)`.
unfoldable pub find_char : Bytes → ℕ → Option ℕ
find_char [] d = none
find_char (c ∷ s) d = let rest = find_char s d in if c == d then some 0 else option_map suc rest

-- `text.rfind(character)`.
unfoldable pub rfind_char : Bytes → ℕ → Option ℕ
rfind_char [] d = none
rfind_char (c ∷ s) d = elim (rfind_char s d) [
  | some i ↦ some (suc i)
  | none ↦ if c == d then some 0 else none
]

-- `text.substr(position, count)`, for a position that is in range.
abbrev pub substr : Bytes → ℕ → ℕ → Bytes
substr s position count = take count (drop position s)

-- `text.back() == character`, on a text that is not empty; `ends_with`.
abbrev pub ends_with_char : Bytes → ℕ → Bool
ends_with_char [] d = false
ends_with_char (c ∷ []) d = c == d
ends_with_char (c ∷ d ∷ s) e = ends_with_char (d ∷ s) e

-- `text.pop_back()`.
abbrev pub pop_back : Bytes → Bytes
pop_back [] = []
pop_back (c ∷ []) = []
pop_back (c ∷ d ∷ s) = c ∷ pop_back (d ∷ s)

unfoldable pub is_space : ℕ → Bool
is_space c = c == 32 || (leb 9 c && leb c 13)

unfoldable pub to_lower_byte : ℕ → ℕ
to_lower_byte c = if leb b'A' c && leb c b'Z' then c + 32 else c

-- The lines that successive calls of `std::getline` give.
push_front : ℕ → List Bytes → List Bytes
push_front c [] = (c ∷ []) ∷ []
push_front c (l ∷ ls) = (c ∷ l) ∷ ls

unfoldable pub getlines : Bytes → List Bytes
unfolding push_front
getlines [] = []
getlines (c ∷ s) = let rest = getlines s in if c == b'\n' then [] ∷ rest else push_front c rest

-- `std::to_string`; the fuel is more than the number of digits.
digits : ℕ → ℕ → Bytes → Bytes
digits zero n out = out
digits (suc f) n out =
    let rest = digits f (n / 10) ((b'0' + n % 10) ∷ out) in
    if ltb n 10 then (b'0' + n) ∷ out else rest

unfoldable pub to_string : ℕ → Bytes
unfolding digits
to_string n = digits (suc n) n []

-- `std::stoul` and `std::stoull` in base ten, for an unsigned type with `bound` values. White space
-- and a sign may stand in front, and what follows the digits is not read. `none` is an exception:
-- no digit, or a number of at least `bound`. A minus sign negates in the unsigned type.
unfoldable pub is_digit : ℕ → Bool
is_digit c = leb b'0' c && leb c b'9'

skip_space : Bytes → Bytes
unfolding is_space
skip_space [] = []
skip_space (c ∷ s) = let rest = skip_space s in if is_space c then rest else c ∷ s

digit_run : Bytes → ℕ → ℕ
unfolding is_digit
digit_run [] n = n
digit_run (c ∷ s) n = let rest = digit_run s (n * 10 + (c - b'0')) in if is_digit c then rest else n

number : Bytes → Option ℕ
unfolding digit_run
number [] = none
number (c ∷ s) = if is_digit c then some (digit_run (c ∷ s) 0) else none

in_range : ℕ → Option ℕ → Option ℕ
in_range bound none = none
in_range bound (some n) = if ltb n bound then some n else none

signed_number : ℕ → Bytes → Option ℕ
unfolding number in_range
signed_number bound [] = none
signed_number bound (c ∷ s) =
    if c == b'-'
    then option_map (λ n. (bound - n) % bound) (in_range bound (number s))
    else if c == b'+'
    then in_range bound (number s)
    else in_range bound (number (c ∷ s))

unfoldable pub sto_unsigned : ℕ → Bytes → Option ℕ
unfolding skip_space signed_number
sto_unsigned bound s = signed_number bound (skip_space s)

-- `unsigned long` is 32 bits wide on the program's platform, `unsigned long long` 64.
abbrev pub stoul : Bytes → Option ℕ
stoul = sto_unsigned (2 ^ 32)

abbrev pub stoull : Bytes → Option ℕ
stoull = sto_unsigned (2 ^ 64)
