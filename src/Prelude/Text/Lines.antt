-- ===== src/Prelude/Text/Lines.antt =====
-- What the lines of a text, and the decimal digits of a number, do not contain.
use Prim.Native.Nat.{ℕ}
use mathlib.Core.Path.{◌≡◌}
use mathlib.Core.Logic.{inl, inr}
use mathlib.Core.Bool.{Bool, true, false, not, ◌&&◌}
use mathlib.Core.List.{List, [], ◌∷◌, ◌++◌}
use native.Mathlib.Omega.{arith}
use network_proxy.Prelude.Tests.{◌==◌, Bool-cases, &&-true}
use network_proxy.Prelude.Lists.{All, All-append}
use network_proxy.Prelude.Text.{Bytes, is_digit, push_front, getlines, pop_back}
use network_proxy.Prelude.Text.Decimal.{IsDigits}

-- A text has no byte of this value.
abbrev pub Without : ℕ → Bytes → Type 0
Without d = All (λ c. (c == d) ≡ false)

pub Without-append : (d : ℕ) (s t : Bytes) → Without d s → Without d t → Without d (s ++ t)
Without-append d s t = All-append (λ c. (c == d) ≡ false) s t

pub digits-Without : (d : ℕ) (s : Bytes) → is_digit d ≡ false → IsDigits s → Without d s
unfolding is_digit
digits-Without d [] h i = tt
digits-Without d (c ∷ s) h i = (ground (arith, i.0), digits-Without d s h i.1)

push_front-Without :
    (d c : ℕ) (ls : List Bytes)
    → (c == d) ≡ false
    → All (Without d) ls
    → All (Without d) (push_front c ls)
unfolding push_front
push_front-Without d c [] h k = ((h, tt), tt)
push_front-Without d c (l ∷ ls) h k = ((h, k.0), k.1)

pub getlines-Without : (s : Bytes) → All (Without b'\n') (getlines s)
unfolding getlines
getlines-Without [] = tt
getlines-Without (c ∷ s) = elim (Bool-cases (c == b'\n')) [
  | inl b ↦ rw (getlines, b) (tt, getlines-Without s)
  | inr b ↦ rw (getlines, b) (push_front-Without b'\n' c (getlines s) b (getlines-Without s))
]

pub pop_back-Without : (d : ℕ) (s : Bytes) → Without d s → Without d (pop_back s)
pop_back-Without d [] h = tt
pop_back-Without d (c ∷ []) h = tt
pop_back-Without d (c ∷ e ∷ s) h = (h.0, pop_back-Without d (e ∷ s) h.1)

unfoldable pub differs : ℕ → Bytes → Bool
differs d [] = true
differs d (c ∷ s) = not (c == d) && differs d s

-- For a text that is written out, the test runs.
pub all_differ : (d : ℕ) (s : Bytes) → differs d s ≡ true → Without d s
unfolding differs
all_differ d [] h = tt
all_differ d (c ∷ s) h =
    let (e, f) = &&-true (not (c == d)) (differs d s) h in (ground arith, all_differ d s f)
