-- ===== src/Prelude/Text/Decimal.antt =====
-- What `std::to_string` writes, `std::stoul` reads.
use Prim.Native.Nat.{ℕ, zero, suc, ◌+◌, ◌-◌, ◌*◌, ◌/◌, ◌%◌, ◌<◌}
use mathlib.Core.Path.{◌≡◌, refl, ◌∙◌}
use mathlib.Core.Logic.{◌≢◌, inl, inr}
use mathlib.Core.Bool.{true, false}
use mathlib.Core.List.{[], ◌∷◌}
use mathlib.Core.Option.{none, some}
use native.Mathlib.Omega.{arith}
use network_proxy.Prelude.Tests.{if◌then◌else◌, ltb, ◌==◌, Bool-cases, ltb→lt, not-ltb→le}
use network_proxy.Prelude.Lists.{All}
use network_proxy.Prelude.Text.{
  Bytes, digits, to_string, is_digit, is_space, skip_space, digit_run, number, in_range,
  signed_number, sto_unsigned,
}

abbrev pub IsDigits : Bytes → Type 0
IsDigits = All (λ c. is_digit c ≡ true)

is_digit-digit : (n : ℕ) → n < 10 → is_digit (b'0' + n) ≡ true
unfolding is_digit
is_digit-digit n h = ground arith

digits-IsDigits : (f n : ℕ) (out : Bytes) → IsDigits out → IsDigits (digits f n out)
unfolding digits
digits-IsDigits zero n out h = h
digits-IsDigits (suc f) n out h = elim (Bool-cases (ltb n 10)) [
  | inl b ↦ rw (digits, b) (is_digit-digit n (ltb→lt n 10 b), h)
  | inr b ↦ rw (digits, b) (digits-IsDigits f (n / 10) _ (is_digit-digit (n % 10) (omega arith), h))
]

pub to_string-IsDigits : (n : ℕ) → IsDigits (to_string n)
unfolding to_string
to_string-IsDigits n = digits-IsDigits (suc n) n [] tt

digit_run-digit :
    (n m : ℕ) (out : Bytes) → n < 10 → digit_run ((b'0' + n) ∷ out) m ≡ digit_run out (m * 10 + n)
unfolding digit_run
digit_run-digit n m out h =
    let e : b'0' + n - b'0' ≡ n = omega arith in rw (digit_run, is_digit-digit n h, e)

digit_run-digits : (f n : ℕ) (out : Bytes) → n < f → digit_run (digits f n out) 0 ≡ digit_run out n
unfolding digits
digit_run-digits zero n out h = absurd (omega arith)
digit_run-digits (suc f) n out h = elim (Bool-cases (ltb n 10)) [
  | inl b ↦
      let e : 0 * 10 + n ≡ n = omega arith in
      rw (digits, b) (rw e at (digit_run-digit n 0 out (ltb→lt n 10 b)))
  | inr b ↦
      let l = not-ltb→le n 10 b in
      let e : n / 10 * 10 + n % 10 ≡ n = omega arith in
      rw (digits, b)
        (digit_run-digits f (n / 10) _ (omega arith)
          ∙ rw e at (digit_run-digit (n % 10) (n / 10) out (omega arith)))
]

digit-head :
    (c : ℕ)
    → is_digit c ≡ true
    → (is_space c ≡ false) × ((c == b'-') ≡ false) × ((c == b'+') ≡ false)
unfolding is_digit is_space
digit-head c h = (ground arith, ground arith, ground arith)

-- A text of digits that is not empty is read up to its end.
sto_unsigned-IsDigits :
    (bound c : ℕ) (s : Bytes)
    → is_digit c ≡ true
    → sto_unsigned bound (c ∷ s) ≡ in_range bound (some (digit_run (c ∷ s) 0))
unfolding sto_unsigned skip_space signed_number number is_digit is_space
sto_unsigned-IsDigits bound c s h =
    let (e₁, e₂, e₃) = digit-head c h in
    rw (sto_unsigned, skip_space, e₁) (rw (signed_number, e₂, e₃) (rw (number, h)))

sto_unsigned-read :
    (bound n : ℕ) (s : Bytes)
    → IsDigits s
    → s ≢ []
    → digit_run s 0 ≡ n
    → n < bound
    → sto_unsigned bound s ≡ some n
unfolding in_range
sto_unsigned-read bound n [] d e r h = absurd (e refl)
sto_unsigned-read bound n (c ∷ s) d e r h =
    let b : ltb n bound ≡ true = ground arith in
    sto_unsigned-IsDigits bound c s d.0 ∙ rw (r, in_range, b)

digits-cons : (f n d : ℕ) (out : Bytes) → digits f n (d ∷ out) ≢ []
unfolding digits
digits-cons zero n d out = λ e. cc e
digits-cons (suc f) n d out = elim (Bool-cases (ltb n 10)) [
  | inl b ↦ rw (digits, b) λ e. cc e
  | inr b ↦ rw (digits, b) (digits-cons f (n / 10) _ (d ∷ out))
]

pub to_string-cons : (n : ℕ) → to_string n ≢ []
unfolding to_string digits
to_string-cons n = elim (Bool-cases (ltb n 10)) [
  | inl b ↦ rw (to_string, digits, b) λ e. cc e
  | inr b ↦ rw (to_string, digits, b) (digits-cons n (n / 10) _ [])
]

-- A number below the bound is read back from its decimal form.
pub sto_unsigned-to_string : (bound n : ℕ) → n < bound → sto_unsigned bound (to_string n) ≡ some n
unfolding to_string digit_run
sto_unsigned-to_string bound n h =
    sto_unsigned-read bound n (to_string n) (to_string-IsDigits n) (to_string-cons n)
      (digit_run-digits (suc n) n [] (omega arith)) h

sto_unsigned-digits :
    (bound n : ℕ) (s : Bytes)
    → IsDigits s
    → s ≢ []
    → digit_run s 0 ≡ n
    → sto_unsigned bound s ≡ (if ltb n bound then some n else none)
unfolding in_range
sto_unsigned-digits bound n [] d e r = absurd (e refl)
sto_unsigned-digits bound n (c ∷ s) d e r = sto_unsigned-IsDigits bound c s d.0 ∙ rw r refl

-- A number is read back from its decimal form, or refused where it is not below the bound.
pub sto_unsigned-decimal :
    (bound n : ℕ) → sto_unsigned bound (to_string n) ≡ (if ltb n bound then some n else none)
unfolding to_string digit_run
sto_unsigned-decimal bound n =
    sto_unsigned-digits bound n (to_string n) (to_string-IsDigits n) (to_string-cons n)
      (digit_run-digits (suc n) n [] (omega arith))
