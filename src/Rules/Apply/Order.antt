-- ===== src/Rules/Apply/Order.antt =====
-- Rules take effect one behind another, in the order of the file.
use network_proxy.Prelude.{
  if◌then◌else◌, Option-cases, is_empty, Bytes, ◌≡◌, refl, ap, ◌∙◌, inl, inr, Bool, true, false,
  ◌||◌, List, [], ◌∷◌, ◌++◌, arith,
}
use network_proxy.Rules.Apply.{
  replace_step, replace_if, hex_step, transport_action, transport_loop, apply_transport,
}
use network_proxy.Rules.Hex.{decode_hex_string}
use network_proxy.Rules.Match.{matches}
use network_proxy.Rules.Replace.{replace_all}
use network_proxy.Rules.Types.{RuleMatchContext, RuleAction, RuleDefinition}

-- What a step does to the payload, and whether it raises the flag, does not depend on the flag.
Lifts : (Bytes × Bool → Bytes × Bool) → Type 0
Lifts f = (p : Bytes) (c : Bool) → f (p, c) ≡ ((f (p, false)).0, c || (f (p, false)).1)

or_false : (c : Bool) → (c || false) ≡ c
or_false c = ground arith

or_assoc : (a b c : Bool) → ((a || b) || c) ≡ (a || (b || c))
or_assoc a b c = ground arith

Lifts-same : Lifts (λ s. s)
unfolding Lifts
Lifts-same p c = rw (or_false c)

Lifts-then : (f g : Bytes × Bool → Bytes × Bool) → Lifts f → Lifts g → Lifts (λ s. g (f s))
unfolding Lifts
Lifts-then f g lf lg p c =
    let e : g (f (p, false)) ≡ _ = lg (f (p, false)).0 (f (p, false)).1 in
    ap g (lf p c)
    ∙ lg (f (p, false)).0 (c || (f (p, false)).1)
    ∙ rw (e, or_assoc c (f (p, false)).1 (g ((f (p, false)).0, false)).1)

Lifts-if :
    (b : Bool) (f : Bytes × Bool → Bytes × Bool) → Lifts f → Lifts (λ s. if b then f s else s)
Lifts-if true f lf = lf
Lifts-if false f lf = Lifts-same

replace_step-Lifts : (f r : Bytes) → Lifts (replace_step f r)
unfolding replace_step Lifts
replace_step-Lifts f r p c = elim (Option-cases (replace_all p f r)) [
  | inl e ↦ rw (replace_step, e, or_false c)
  | inr ((t, n), e) ↦ rw (replace_step, e)
]

replace_if-Lifts : (f r : Bytes) → Lifts (replace_if f r)
replace_if-Lifts [] r = Lifts-same
replace_if-Lifts (d ∷ f) r = replace_step-Lifts (d ∷ f) r

hex_step-Lifts : (f r : Bytes) → Lifts (hex_step f r)
unfolding hex_step
hex_step-Lifts f r = elim (Option-cases (decode_hex_string f)) [
  | inl e ↦ rw (hex_step, e) Lifts-same
  | inr (fb, e) ↦ elim (Option-cases (decode_hex_string r)) [
    | inl e' ↦ rw (hex_step, e, e') Lifts-same
    | inr (rb, e') ↦ rw (hex_step, e, e') (replace_if-Lifts fb rb)
  ]
]

hex_if-Lifts : (f r : Bytes) → Lifts (λ s. if is_empty f then s else hex_step f r s)
hex_if-Lifts [] r = Lifts-same
hex_if-Lifts (d ∷ f) r = hex_step-Lifts (d ∷ f) r

transport_action-Lifts : (a : RuleAction) → Lifts (transport_action a)
transport_action-Lifts a =
    Lifts-then (replace_if a.text_find a.text_replace)
      (λ s. if is_empty a.hex_find then s else hex_step a.hex_find a.hex_replace s)
      (replace_if-Lifts a.text_find a.text_replace) (hex_if-Lifts a.hex_find a.hex_replace)

transport_loop-Lifts :
    (x : RuleMatchContext) (rules : List RuleDefinition) → Lifts (transport_loop x rules)
unfolding transport_loop
transport_loop-Lifts x [] = Lifts-same
transport_loop-Lifts x (rule ∷ rules) =
    Lifts-then (λ s. if matches rule.when x then transport_action rule.action s else s)
      (transport_loop x rules)
      (Lifts-if (matches rule.when x) (transport_action rule.action)
        (transport_action-Lifts rule.action))
      (transport_loop-Lifts x rules)

transport_loop-append :
    (x : RuleMatchContext) (first second : List RuleDefinition) (s : Bytes × Bool)
    → transport_loop x (first ++ second) s ≡ transport_loop x second (transport_loop x first s)
unfolding transport_loop
transport_loop-append x [] second s = refl
transport_loop-append x (rule ∷ first) second s = transport_loop-append x first second _

-- Two lists of rules, one behind the other, do to a payload what the first does and then the second
-- to its result, and report a change where either of them does.
pub apply_transport-append :
    (first second : List RuleDefinition) (payload : Bytes) (x : RuleMatchContext)
    → apply_transport (first ++ second) payload x ≡ (
      (apply_transport second (apply_transport first payload x).0 x).0,
      (apply_transport first payload x).1
          || (apply_transport second (apply_transport first payload x).0 x).1,
    )
unfolding apply_transport Lifts
apply_transport-append first second payload x =
    let s = transport_loop x first (payload, false) in
    transport_loop-append x first second (payload, false) ∙ transport_loop-Lifts x second s.0 s.1
