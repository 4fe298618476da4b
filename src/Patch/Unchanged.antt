-- ===== src/Patch/Unchanged.antt =====
-- What the engine's patches leave as it is.
use network_proxy.Prelude.{
  ◌==◌, if◌then◌else◌, Option-cases, is_empty, Bytes, ℕ, ◌≡◌, refl, ◌∙◌, ◌≢◌, inl, inr, Bool, true,
  false, not, ◌&&◌, Option, none, some, [], ◌∷◌, arith,
}
use network_proxy.Config.Types.{AppConfig}
use network_proxy.Patch.Agree.{replace_all_agrees}
use network_proxy.Patch.Engine.{
  PatchEngine, count_replace, text_patch, hex_replace, hex_patch, local_context, transport_rules,
  apply_transport_patch,
}
use network_proxy.Rules.Apply.Unchanged.{apply_transport-unchanged}
use network_proxy.Rules.Replace.OnePass.{substitute-unchanged, replace_all-substitute}
use network_proxy.Rules.Types.{RuleMatchContext}

-- A step that leaves the count at 0 leaves the payload.
Counts : Bytes × ℕ → Bytes × ℕ → Type 0
Counts p q = q.1 ≡ 0 → (q.0 ≡ p.0) × (p.1 ≡ 0)

Counts-trans : (p q r : Bytes × ℕ) → Counts p q → Counts q r → Counts p r
unfolding Counts
Counts-trans p q r f g h = let (e, z) = g h in let (e', z') = f z in (e ∙ e', z')

is_empty-false : (p : Bytes) → is_empty p ≡ false → p ≢ []
is_empty-false [] h e = cc
is_empty-false (c ∷ p) h e = cc

-- A replacement that finds nothing changes nothing.
count_replace-Counts :
    (p r : Bytes) (s : Bytes × ℕ) → is_empty p ≡ false → Counts s (count_replace p r s)
unfolding count_replace Counts
count_replace-Counts p r (s, n) h =
    let e = replace_all_agrees s p r ∙ replace_all-substitute s p r (is_empty-false p h) in
    rw (count_replace, e) λ z. (substitute-unchanged p r s (omega arith), omega arith)

keeps : (s : Bytes × ℕ) → Counts s s
unfolding Counts
keeps s h = (refl, h)

text_step :
    (enabled : Bool) (p r : Bytes) (s : Bytes × ℕ)
    → Counts s (if enabled && not (is_empty p) then count_replace p r s else s)
text_step false p r s = keeps s
text_step true [] r s = keeps s
text_step true (c ∷ p) r s = count_replace-Counts (c ∷ p) r s refl

text_patch-Counts :
    (config : AppConfig) (outbound : Bool) (s : Bytes × ℕ) → Counts s (text_patch config outbound s)
unfolding text_patch
text_patch-Counts config outbound s = text_step config.enable_text_patch _ _ s

hex_replace-Counts : (f r : Option Bytes) (s : Bytes × ℕ) → Counts s (hex_replace f r s)
unfolding hex_replace
hex_replace-Counts none r s = keeps s
hex_replace-Counts (some f) none s = keeps s
hex_replace-Counts (some []) (some r) s = keeps s
hex_replace-Counts (some (c ∷ f)) (some r) s = count_replace-Counts (c ∷ f) r s refl

hex_step :
    (enabled : Bool) (f r : Option Bytes) (s : Bytes × ℕ)
    → Counts s (if enabled then hex_replace f r s else s)
hex_step false f r s = keeps s
hex_step true f r s = hex_replace-Counts f r s

hex_patch-Counts :
    (config : AppConfig) (outbound : Bool) (s : Bytes × ℕ) → Counts s (hex_patch config outbound s)
unfolding hex_patch
hex_patch-Counts config outbound s = hex_step config.enable_hex_patch _ _ s

transport_rules-unchanged :
    (e : PatchEngine) (payload : Bytes) (x : RuleMatchContext)
    → (transport_rules e payload x).1 ≡ false
    → (transport_rules e payload x).0 ≡ payload
unfolding transport_rules
transport_rules-unchanged e payload x h = elim (Option-cases e.rules) [
  | inl n ↦ rw (transport_rules, n)
  | inr (rules, f) ↦
      rw (transport_rules, f)
        (apply_transport-unchanged rules payload x (rw (transport_rules, f) at h))
]

both_false :
    (n : ℕ) (changed : Bool)
    → (if n == 0 then changed else true) ≡ false
    → (n ≡ 0) × (changed ≡ false)
both_false n changed h = ground arith

-- Where the engine reports no change to a payload of a transport, after its rules, its text
-- replacement and its hexadecimal one, the payload is the one it was given.
pub apply_transport_patch-unchanged :
    (e : PatchEngine) (payload protocol direction : Bytes) (context : Option RuleMatchContext)
    → (apply_transport_patch e payload protocol direction context).1 ≡ false
    → (apply_transport_patch e payload protocol direction context).0 ≡ payload
unfolding apply_transport_patch Counts
apply_transport_patch-unchanged e payload protocol direction context h =
    let (z, c) = both_false _ _ h in
    let (t, _) =
      Counts-trans _ _ _ (text_patch-Counts e.config _ (_, 0)) (hex_patch-Counts e.config _ _) z in
    t ∙ transport_rules-unchanged e payload (local_context protocol direction context) c
