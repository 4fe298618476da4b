-- ===== src/Common/Trim.antt =====
-- What the two loops of `trim_copy` take away, and what they leave.
use network_proxy.Prelude.{
  ltb, ltb→lt, not-ltb→le, Bool-cases, &&-true, length, get_or, take, drop, length-drop, All, Bytes,
  substr, is_space, ℕ, zero, suc, ◌+◌, ◌-◌, ◌≤◌, ◌<◌, ◌≡◌, refl, ◌∙◌, ◌⊎◌, inl, inr, true, false,
  ◌&&◌, [], ◌∷◌, arith,
}
use network_proxy.Common.{skip_front, skip_back, trim_copy}
use network_proxy.Rules.Text.{trim}

abbrev pub IsSpace : ℕ → Type 0
IsSpace c = is_space c ≡ true

drop-get_or : (s : Bytes) (e i d : ℕ) → get_or (drop e s) i d ≡ get_or s (e + i) d
drop-get_or s zero i d = let z : 0 + i ≡ i = omega arith in rw z
drop-get_or [] (suc e) i d = refl
drop-get_or (c ∷ s) (suc e) i d =
    let z : suc e + i ≡ suc (e + i) = omega arith in rw z (drop-get_or s e i d)

All-get_or : (s : Bytes) → ((i : ℕ) → i < length s → IsSpace (get_or s i 0)) → All IsSpace s
All-get_or [] h = tt
All-get_or (c ∷ s) h = (h 0 (omega arith), All-get_or s (λ i l. h (suc i) (omega arith)))

abbrev StartsTight : Bytes → Type 0
StartsTight [] = Unit
StartsTight (c ∷ s) = is_space c ≡ false

front :
    (s : Bytes) (b : ℕ)
    → (n : ℕ) × (skip_front s b ≡ b + n)
      × All IsSpace (take n s)
      × (n ≤ length s)
      × StartsTight (drop n s)
unfolding skip_front
front [] b = (0, omega arith, tt, omega arith, tt)
front (c ∷ s) b = elim (Bool-cases (is_space c)) [
  | inl e ↦
      let (n, f, a, l, t) = front s (b + 1) in
      (suc n, rw (skip_front, e) (f ∙ omega arith), (e, a), omega arith, t)
  | inr e ↦ (0, rw (skip_front, e) (omega arith), tt, omega arith, e)
]

record Back (s : Bytes) (b n e : ℕ) : Type 0 where
  above : b ≤ e
  below : e ≤ n
  spaces : (i : ℕ) → e ≤ i → i < n → IsSpace (get_or s i 0)
  tight : (b ≡ e) ⊎ (is_space (get_or s (e - 1) 0) ≡ false)

back : (s : Bytes) (b n : ℕ) → b ≤ n → Back s b n (skip_back s b n)
unfolding skip_back
back s b zero h = record {
  above = h;
  below = omega arith;
  spaces = λ i l m. absurd (omega arith);
  tight = inl (omega arith);
}
back s b (suc last) h = elim (Bool-cases (ltb b (suc last) && is_space (get_or s last 0))) [
  | inl e ↦
      let (l, c) = &&-true (ltb b (suc last)) (is_space (get_or s last 0)) e in
      let k = back s b last (ground (arith, l)) in
      rw (skip_back, e)
        (record {
          above = k.above;
          below = omega (arith, k.below);
          spaces = λ i f m. elim (Bool-cases (ltb i last)) [
            | inl g ↦ k.spaces i f (ltb→lt i last g)
            | inr g ↦ let z : i ≡ last = omega (arith, not-ltb→le i last g) in rw z c
          ];
          tight = k.tight;
        })
  | inr e ↦
      rw (skip_back, e)
        (record {
          above = h;
          below = omega arith;
          spaces = λ i l m. absurd (omega arith);
          tight = elim (Bool-cases (is_space (get_or s last 0))) [
            | inl c ↦ inl (ground (arith, rw c at e))
            | inr c ↦ let z : suc last - 1 ≡ last = omega arith in inr (rw z c)
          ];
        })
]

StartsTight-get_or : (s : Bytes) → 0 < length s → StartsTight s → is_space (get_or s 0 0) ≡ false
StartsTight-get_or [] l h = absurd (omega arith)
StartsTight-get_or (c ∷ s) l h = h

-- `trim_copy` takes a part of the text: what stands in front of it and what stands behind it are
-- spaces, and it is empty or neither begins nor ends with one. The rule engine's `trim` gives the
-- same.
pub trim_copy-trims :
    (s : Bytes)
    → (b : ℕ) × (e : ℕ) × (trim_copy s ≡ substr s b (e - b))
      × (trim s ≡ trim_copy s)
      × (b ≤ e)
      × (e ≤ length s)
      × All IsSpace (take b s)
      × All IsSpace (drop e s)
      × ((b ≡ e) ⊎ ((is_space (get_or s b 0) ≡ false) × (is_space (get_or s (e - 1) 0) ≡ false)))
unfolding trim_copy trim
trim_copy-trims s =
    let (n, f, a, l, t) = front s 0 in
    let z : skip_front s 0 ≡ n = f ∙ omega arith in
    let k = back s n (length s) l in
    (
      n,
      skip_back s n (length s),
      rw z,
      refl,
      k.above,
      k.below,
      a,
      All-get_or (drop (skip_back s n (length s)) s) (λ i m.
          rw (drop-get_or s (skip_back s n (length s)) i 0) (
            k.spaces (skip_back s n (length s) + i) (omega arith)
              (omega (arith, length-drop (skip_back s n (length s)) s, k.below)))),
      elim k.tight [
        | inl e ↦ inl e
        | inr g ↦ elim (Bool-cases (ltb n (length s))) [
          | inl m ↦
              let h =
                StartsTight-get_or (drop n s)
                  (omega (arith, length-drop n s, ltb→lt n (length s) m)) t in
              let i : get_or (drop n s) 0 0 ≡ get_or s n 0 =
                drop-get_or s n 0 0 ∙ (let y : n + 0 ≡ n = omega arith in rw y) in
              inr (rw i at h, g)
          | inr m ↦ inl (omega (arith, not-ltb→le n (length s) m, k.above, k.below))
        ]
      ],
    )
