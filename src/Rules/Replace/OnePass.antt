-- ===== src/Rules/Replace/OnePass.antt =====
-- `replace_all` against a description that reads the text once, from left to right.
use native.Mathlib.Nat.{add_assoc}
use network_proxy.Rules.Replace.{splice, replace_loop, replace_all}
use network_proxy.Prelude.{
  leb, Bool-cases, Option-cases, option_map, length, take, drop, length-append, length-take,
  length-drop, drop-length-append, take_add-append, drop_add-append, Bytes, starts_with, find,
  find_from, find-cons, find-nil, find-le-length, find-none-cons, ℕ, zero, suc, ◌+◌, ◌-◌, ◌<◌, ◌≡◌,
  refl, ap, ◌∙◌, ◌≢◌, inl, inr, true, false, none, some, [], ◌∷◌, ◌++◌, append_assoc, arith,
}

-- The leftmost occurrences that do not overlap are exchanged; `skip` bytes belong to the last one.
pub substitute : Bytes → Bytes → ℕ → Bytes → Bytes
substitute p r skip [] = []
substitute p r (suc skip) (c ∷ s) = substitute p r skip s
substitute p r zero (c ∷ s) = elim (starts_with (c ∷ s) p) [
  | true ↦ r ++ substitute p r (length p - 1) s
  | false ↦ c ∷ substitute p r zero s
]

-- The number of those occurrences.
pub occurrences : Bytes → ℕ → Bytes → ℕ
occurrences p skip [] = 0
occurrences p (suc skip) (c ∷ s) = occurrences p skip s
occurrences p zero (c ∷ s) = elim (starts_with (c ∷ s) p) [
  | true ↦ suc (occurrences p (length p - 1) s)
  | false ↦ occurrences p zero s
]

substitute-drop :
    (p r : Bytes) (k : ℕ) (s : Bytes) → substitute p r k s ≡ substitute p r 0 (drop k s)
unfolding substitute
substitute-drop p r zero s = refl
substitute-drop p r (suc k) [] = refl
substitute-drop p r (suc k) (c ∷ s) = substitute-drop p r k s

occurrences-drop : (p : Bytes) (k : ℕ) (s : Bytes) → occurrences p k s ≡ occurrences p 0 (drop k s)
unfolding occurrences
occurrences-drop p zero s = refl
occurrences-drop p (suc k) [] = refl
occurrences-drop p (suc k) (c ∷ s) = occurrences-drop p k s

module _ (d : ℕ) (q : Bytes) where
  substitute-none : (r s : Bytes) → find s (d ∷ q) ≡ none → substitute (d ∷ q) r 0 s ≡ s
  unfolding substitute
  substitute-none r [] h = refl
  substitute-none r (c ∷ s) h =
      let (e, n) = find-none-cons c s (d ∷ q) h in
      rw (e, substitute) (ap (◌∷◌ c) (substitute-none r s n))

  occurrences-none : (s : Bytes) → find s (d ∷ q) ≡ none → occurrences (d ∷ q) 0 s ≡ 0
  unfolding occurrences
  occurrences-none [] h = refl
  occurrences-none (c ∷ s) h =
      let (e, n) = find-none-cons c s (d ∷ q) h in rw (e, occurrences) (occurrences-none s n)

  substitute-hit :
      (r s : Bytes) (i : ℕ)
      → find s (d ∷ q) ≡ some i
      → substitute (d ∷ q) r 0 s
        ≡ take i s ++ (r ++ substitute (d ∷ q) r 0 (drop (i + length (d ∷ q)) s))
  unfolding substitute
  substitute-hit r [] i h = absurd (cc (find-nil (d ∷ q) i h).0)
  substitute-hit r (c ∷ s) i h = elim (find-cons c s (d ∷ q) i h) [
    | inl (e, z) ↦
        let e₁ : suc (length q) - 1 ≡ length q = omega arith in
        let e₂ : 0 + suc (length q) ≡ suc (length q) = omega arith in
        rw (e, substitute, z)
          (rw (e₁, e₂) (ap (λ (t : Bytes). r ++ t) (substitute-drop (d ∷ q) r (length q) s)))
    | inr (e, j, f, z) ↦
        let e₂ : suc j + suc (length q) ≡ suc (j + suc (length q)) = omega arith in
        rw (e, substitute, z) (rw e₂ (ap (◌∷◌ c) (substitute-hit r s j f)))
  ]

  occurrences-hit :
      (s : Bytes) (i : ℕ)
      → find s (d ∷ q) ≡ some i
      → occurrences (d ∷ q) 0 s ≡ suc (occurrences (d ∷ q) 0 (drop (i + length (d ∷ q)) s))
  unfolding occurrences
  occurrences-hit [] i h = absurd (cc (find-nil (d ∷ q) i h).0)
  occurrences-hit (c ∷ s) i h = elim (find-cons c s (d ∷ q) i h) [
    | inl (e, z) ↦
        let e₁ : suc (length q) - 1 ≡ length q = omega arith in
        let e₂ : 0 + suc (length q) ≡ suc (length q) = omega arith in
        rw (e, occurrences, z) (rw (e₁, e₂) (ap suc (occurrences-drop (d ∷ q) (length q) s)))
    | inr (e, j, f, z) ↦
        let e₂ : suc j + suc (length q) ≡ suc (j + suc (length q)) = omega arith in
        rw (e, occurrences, z) (rw e₂ (occurrences-hit s j f))
  ]

  -- The search from an offset sees only what stands behind it.
  find_from-append :
      (done rest : Bytes)
      → find_from (done ++ rest) (d ∷ q) (length done)
        ≡ option_map (λ i. length done + i) (find rest (d ∷ q))
  unfolding find_from
  find_from-append done rest =
      let e : leb (length done) (length (done ++ rest)) ≡ true =
        ground (arith, length-append done rest) in
      rw (e, drop-length-append done rest)

  splice-append :
      (r done rest : Bytes) (i : ℕ)
      → splice (done ++ rest) (length done + i) (length (d ∷ q)) r
        ≡ (done ++ (take i rest ++ r)) ++ drop (i + length (d ∷ q)) rest
  splice-append r done rest i =
      rw (take_add-append done rest i, add_assoc, drop_add-append done rest) (simp append_assoc)

  replace_loop-substitute :
      (r : Bytes) (fuel : ℕ) (done rest : Bytes) (offset count : ℕ)
      → offset ≡ length done
      → length rest < fuel
      → replace_loop fuel (done ++ rest) (d ∷ q) r offset count
        ≡ some (done ++ substitute (d ∷ q) r 0 rest, count + occurrences (d ∷ q) 0 rest)
  unfolding replace_loop
  replace_loop-substitute r zero done rest offset count eo h = absurd (omega arith)
  replace_loop-substitute r (suc fuel) done rest offset count eo h =
      elim (Option-cases (find rest (d ∷ q))) [
        | inl n ↦
            let e : count + 0 ≡ count = omega arith in
            rw (
              eo,
              replace_loop,
              find_from-append done rest,
              n,
              substitute-none r rest n,
              occurrences-none rest n,
              e,
            )
        | inr (i, f) ↦
            rw (eo, replace_loop, find_from-append done rest, f)
              (rw (splice-append r done rest i) (
                replace_loop-substitute r fuel (done ++ (take i rest ++ r))
                  (drop (i + length (d ∷ q)) rest) _ (count + 1) (grows i f) (falls i f)
                ∙ rw (substitute-hit r rest i f, occurrences-hit rest i f)
                    (cc (
                      append_assoc done (take i rest ++ r)
                          (substitute (d ∷ q) r 0 (drop (i + length (d ∷ q)) rest)),
                      append_assoc (take i rest) r
                          (substitute (d ∷ q) r 0 (drop (i + length (d ∷ q)) rest)),
                      carry i,
                    ))))
      ]
    where
      grows :
          (i : ℕ)
          → find rest (d ∷ q) ≡ some i
          → length done + i + length r ≡ length (done ++ (take i rest ++ r))
      grows i f = omega (
        arith,
        length-append done (take i rest ++ r),
        length-append (take i rest) r,
        length-take i rest,
        find-le-length rest (d ∷ q) i f,
      )

      falls : (i : ℕ) → find rest (d ∷ q) ≡ some i → length (drop (i + length (d ∷ q)) rest) < fuel
      falls i f =
          omega (arith, length-drop (i + length (d ∷ q)) rest, find-le-length rest (d ∷ q) i f)

      carry :
          (i : ℕ)
          → count + 1 + occurrences (d ∷ q) 0 (drop (i + length (d ∷ q)) rest)
            ≡ count + suc (occurrences (d ∷ q) 0 (drop (i + length (d ∷ q)) rest))
      carry i = omega arith

-- Without an occurrence nothing is exchanged.
pub substitute-unchanged : (p r s : Bytes) → occurrences p 0 s ≡ 0 → substitute p r 0 s ≡ s
unfolding substitute occurrences
substitute-unchanged p r [] h = refl
substitute-unchanged p r (c ∷ s) h = elim (Bool-cases (starts_with (c ∷ s) p)) [
  | inl e ↦ absurd (ground arith)
  | inr e ↦ rw (e, substitute) (ap (◌∷◌ c) (substitute-unchanged p r s (rw (e, occurrences) at h)))
]

-- For a pattern that is not empty, `replace_all` always returns: its text has every leftmost
-- occurrence that does not overlap an earlier one exchanged, and its count is their number. What a
-- replacement puts in is not searched again.
pub replace_all-substitute :
    (source find_text replace_text : Bytes)
    → find_text ≢ []
    → replace_all source find_text replace_text
      ≡ some (substitute find_text replace_text 0 source, occurrences find_text 0 source)
unfolding replace_all
replace_all-substitute source [] replace_text h = absurd (h refl)
replace_all-substitute source (d ∷ q) replace_text h =
    replace_loop-substitute d q replace_text (length source + 1) [] source 0 0 refl (omega arith)
    ∙ let e : 0 + occurrences (d ∷ q) 0 source ≡ occurrences (d ∷ q) 0 source = omega arith in rw e

pub replace_all-nil :
    (source replace_text : Bytes) → replace_all source [] replace_text ≡ some (source, 0)
unfolding replace_all
replace_all-nil source replace_text = refl
