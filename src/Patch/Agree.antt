-- ===== src/Patch/Agree.antt =====
-- The two copies of `replace_all` and of `decode_hex_string`, in src/patch/patch_engine.cpp and in
-- src/rules/rule_engine.cpp.
use network_proxy.Prelude.{
  Option-cases, Bytes, find_from, ℕ, zero, suc, ◌+◌, ◌≡◌, refl, inl, inr, [], ◌∷◌,
}
use network_proxy.Rules.Replace
use network_proxy.Rules.Hex
use network_proxy.Patch.Bytes

replace_loop_agrees :
    (fuel : ℕ) (s p r : Bytes) (offset count : ℕ)
    → Bytes.replace_loop fuel s p r offset count ≡ Replace.replace_loop fuel s p r offset count
unfolding Bytes.replace_loop Replace.replace_loop
replace_loop_agrees zero s p r offset count = refl
replace_loop_agrees (suc fuel) s p r offset count = elim (Option-cases (find_from s p offset)) [
  | inl n ↦ rw (n, Bytes.replace_loop, Replace.replace_loop)
  | inr (i, f) ↦
      rw (f, Bytes.replace_loop, Replace.replace_loop)
        (replace_loop_agrees fuel _ p r _ (count + 1))
]

-- The patch engine's `replace_all` is the rule engine's.
pub replace_all_agrees : (s p r : Bytes) → Bytes.replace_all s p r ≡ Replace.replace_all s p r
unfolding Bytes.replace_all Replace.replace_all
replace_all_agrees s p r = simp replace_loop_agrees

normalize_agrees : (s : Bytes) → Bytes.normalize s ≡ Hex.normalize s
unfolding Bytes.normalize Hex.normalize
normalize_agrees [] = refl
normalize_agrees (c ∷ s) = rw (normalize_agrees s)

decode_pairs_agrees : (s : Bytes) → Bytes.decode_pairs s ≡ Hex.decode_pairs s
unfolding Bytes.decode_pairs Hex.decode_pairs
decode_pairs_agrees [] = refl
decode_pairs_agrees (c ∷ []) = refl
decode_pairs_agrees (c ∷ d ∷ s) = rw (decode_pairs_agrees s)

-- On every text the two decoders refuse alike, and give the same bytes where they accept.
pub decode_hex_string_agrees : (s : Bytes) → Bytes.decode_hex_string s ≡ Hex.decode_hex_string s
unfolding Bytes.decode_hex_string Hex.decode_hex_string
decode_hex_string_agrees s = simp (normalize_agrees, decode_pairs_agrees)
