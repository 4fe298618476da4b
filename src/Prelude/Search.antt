-- ===== src/Prelude/Search.antt =====
-- What `find` finds: the leftmost place where the pattern stands.
use Prim.Native.Nat.{ℕ, zero, suc, ◌+◌, ◌≤◌, ◌<◌}
use mathlib.Core.Path.{◌≡◌, refl, sym, ap, ◌∙◌}
use mathlib.Core.Logic.{◌≢◌, ◌↔◌, ◌⊎◌, inl, inr}
use mathlib.Core.Bool.{true, false}
use mathlib.Core.List.{[], ◌∷◌, ◌++◌}
use mathlib.Core.Option.{none, some}
use native.Mathlib.Omega.{arith}
use network_proxy.Prelude.Tests.{
  ◌==◌, ==_iff, &&-true, Bool-cases, Option-cases, is_some, ltb, ltb→lt, not-ltb→le,
}
use network_proxy.Prelude.Lists.{
  length, take, drop, take-append-drop, drop-drop, drop_nil, drop-length-append,
}
use network_proxy.Prelude.Text.{Bytes, eqb, starts_with, find}

pub eqb_refl : (s : Bytes) → eqb s s ≡ true
eqb_refl [] = refl
eqb_refl (c ∷ s) = ground (arith, eqb_refl s)

pub eq_of_eqb : (s t : Bytes) → eqb s t ≡ true → s ≡ t
eq_of_eqb [] [] h = refl
eq_of_eqb [] (d ∷ t) h = cc
eq_of_eqb (c ∷ s) [] h = cc
eq_of_eqb (c ∷ s) (d ∷ t) h = ground (arith, eq_of_eqb s t)

pub eqb_iff : (s t : Bytes) → (eqb s t ≡ true) ↔ (s ≡ t)
eqb_iff s t = (eq_of_eqb s t, λ e. rw e (eqb_refl t))

pub starts_with-append : (p s : Bytes) → starts_with (p ++ s) p ≡ true
starts_with-append [] s = refl
starts_with-append (d ∷ p) s = ground (arith, starts_with-append p s)

-- A prefix stands in front of what is left behind it.
pub starts_with-splits : (s p : Bytes) → starts_with s p ≡ true → s ≡ p ++ drop (length p) s
starts_with-splits s [] h = refl
starts_with-splits [] (d ∷ p) h = cc
starts_with-splits (c ∷ s) (d ∷ p) h =
    let (e, t) = &&-true (c == d) (starts_with s p) h in
    cc ((==_iff c d).0 e, starts_with-splits s p t)

pub length-starts_with : (s p : Bytes) → starts_with s p ≡ true → length p ≤ length s
length-starts_with s [] h = omega arith
length-starts_with [] (d ∷ p) h = cc
length-starts_with (c ∷ s) (d ∷ p) h =
    omega (arith, length-starts_with s p (&&-true (c == d) (starts_with s p) h).1)

-- A hit at `c ∷ s` is at its head, or behind it.
pub find-cons :
    (c : ℕ) (s p : Bytes) (i : ℕ)
    → find (c ∷ s) p ≡ some i
    → ((starts_with (c ∷ s) p ≡ true) × (i ≡ 0))
      ⊎ ((starts_with (c ∷ s) p ≡ false) × (j : ℕ) × (find s p ≡ some j) × (i ≡ suc j))
unfolding find
find-cons c s p i h = elim (Bool-cases (starts_with (c ∷ s) p)) [
  | inl e ↦ inl (e, ground arith)
  | inr e ↦ elim (Option-cases (find s p)) [
    | inl n ↦ absurd (ground arith)
    | inr (j, q) ↦ inr (e, j, q, ground arith)
  ]
]

pub find-nil : (p : Bytes) (i : ℕ) → find [] p ≡ some i → (p ≡ []) × (i ≡ 0)
unfolding find
find-nil [] i h = (refl, ground arith)
find-nil (d ∷ p) i h = cc

-- At the place found the pattern stands.
pub find-starts_with : (s p : Bytes) (i : ℕ) → find s p ≡ some i → starts_with (drop i s) p ≡ true
find-starts_with [] p i h = let (e, z) = find-nil p i h in rw (drop_nil i, e)
find-starts_with (c ∷ s) p i h = elim (find-cons c s p i h) [
  | inl (e, z) ↦ rw z e
  | inr (_, j, q, z) ↦ rw z (find-starts_with s p j q)
]

pub find-le-length : (s p : Bytes) (i : ℕ) → find s p ≡ some i → i + length p ≤ length s
find-le-length [] p i h = let (e, z) = find-nil p i h in rw (e, z) (omega arith)
find-le-length (c ∷ s) p i h = elim (find-cons c s p i h) [
  | inl (e, z) ↦ omega (arith, length-starts_with (c ∷ s) p e)
  | inr (_, j, q, z) ↦ omega (arith, find-le-length s p j q)
]

-- The text around a hit.
pub find-splits :
    (s p : Bytes) (i : ℕ) → find s p ≡ some i → s ≡ take i s ++ (p ++ drop (i + length p) s)
find-splits s p i h =
    sym (take-append-drop i s)
    ∙ ap (λ (t : Bytes). take i s ++ t)
        (starts_with-splits (drop i s) p (find-starts_with s p i h)
          ∙ ap (λ (t : Bytes). p ++ t) (drop-drop (length p) i s))

-- The pattern stands nowhere to the left of the hit.
pub find_least :
    (s p : Bytes) (i j : ℕ) → find s p ≡ some i → j < i → starts_with (drop j s) p ≡ false
find_least [] p i j h lt = let (e, z) = find-nil p i h in absurd (omega arith)
find_least (c ∷ s) p i zero h lt = elim (find-cons c s p i h) [
  | inl (e, z) ↦ absurd (omega arith)
  | inr (e, k, q, z) ↦ e
]
find_least (c ∷ s) p i (suc j) h lt = elim (find-cons c s p i h) [
  | inl (e, z) ↦ absurd (omega arith)
  | inr (e, k, q, z) ↦ find_least s p k j q (omega arith)
]

-- Where nothing is found, the pattern stands nowhere.
pub find-none-cons :
    (c : ℕ) (s p : Bytes)
    → find (c ∷ s) p ≡ none
    → (starts_with (c ∷ s) p ≡ false) × (find s p ≡ none)
unfolding find
find-none-cons c s p h = elim (Bool-cases (starts_with (c ∷ s) p)) [
  | inl e ↦ absurd (ground arith)
  | inr e ↦ elim (Option-cases (find s p)) [ inl n ↦ (e, n) | inr (j, q) ↦ absurd (ground arith) ]
]

pub find-none : (s p : Bytes) (j : ℕ) → find s p ≡ none → starts_with (drop j s) p ≡ false
unfolding find
find-none [] [] j h = absurd (ground arith)
find-none [] (d ∷ p) j h = rw (drop_nil j)
find-none (c ∷ s) p zero h = (find-none-cons c s p h).0
find-none (c ∷ s) p (suc j) h = find-none s p j (find-none-cons c s p h).1

-- A text that has the pattern in it has a hit, no further right than that place.
pub find-append : (u p v : Bytes) → (i : ℕ) × (find (u ++ (p ++ v)) p ≡ some i) × (i ≤ length u)
find-append u p v = elim (Option-cases (find (u ++ (p ++ v)) p)) [
  | inl n ↦ absurd (cc (find-none (u ++ (p ++ v)) p (length u) n, stands))
  | inr (i, q) ↦ elim (Bool-cases (ltb (length u) i)) [
    | inl lt ↦ absurd (cc (find_least (u ++ (p ++ v)) p i (length u) q (ltb→lt _ _ lt), stands))
    | inr ge ↦ (i, q, not-ltb→le _ _ ge)
  ]
]
  where
    stands : starts_with (drop (length u) (u ++ (p ++ v))) p ≡ true
    stands = rw (drop-length-append u (p ++ v)) (starts_with-append p v)

-- `find` is total on patterns: a hit exactly where the text has the pattern in it.
pub find_iff :
    (s p : Bytes) → (is_some (find s p) ≡ true) ↔ ((u : Bytes) × (v : Bytes) × (s ≡ u ++ (p ++ v)))
find_iff s p = (to, from)
  where
    to : is_some (find s p) ≡ true → (u : Bytes) × (v : Bytes) × (s ≡ u ++ (p ++ v))
    to h = elim (Option-cases (find s p)) [
      | inl n ↦ absurd (ground (arith, n))
      | inr (i, q) ↦ (take i s, drop (i + length p) s, find-splits s p i q)
    ]

    from : (u : Bytes) × (v : Bytes) × (s ≡ u ++ (p ++ v)) → is_some (find s p) ≡ true
    from (u, v, e) = let (i, q, _) = find-append u p v in rw (e, q) refl

starts_with-append_right :
    (s t p : Bytes) → length p ≤ length s → starts_with (s ++ t) p ≡ starts_with s p
starts_with-append_right s t [] h = refl
starts_with-append_right [] t (d ∷ p) h = absurd (omega arith)
starts_with-append_right (c ∷ s) t (d ∷ p) h = rw (starts_with-append_right s t p (omega arith))

-- More text behind a hit does not move it.
pub find-append_right :
    (s t p : Bytes) (i : ℕ) → find s p ≡ some i → p ≢ [] → find (s ++ t) p ≡ some i
unfolding find
find-append_right [] t [] i h ne = absurd (ne refl)
find-append_right [] t (d ∷ p) i h ne = cc
find-append_right (c ∷ s) t p i h ne = elim (find-cons c s p i h) [
  | inl (e, z) ↦
      let e' = starts_with-append_right (c ∷ s) t p (length-starts_with (c ∷ s) p e) ∙ e in
      rw (e', z)
  | inr (e, j, q, z) ↦
      let fits = find-le-length s p j q in
      let e' = starts_with-append_right (c ∷ s) t p (omega arith) ∙ e in
      rw (e', find-append_right s t p j q ne, z)
]
