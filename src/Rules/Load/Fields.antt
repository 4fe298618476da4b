-- ===== src/Rules/Load/Fields.antt =====
-- What the assignments of the loader keep of a condition, an action and the headers.
use network_proxy.Prelude.{
  Bool-cases, OnSome, OnSome-if, is_empty, All, Bytes, codes, eqb, to_lower_byte, ℕ, ◌≤◌, ◌≡◌, refl,
  inl, inr, false, [], ◌∷◌, arith,
}
use network_proxy.Http.{HeaderMap, set_header}
use network_proxy.Rules.Types.{RuleCondition, RuleAction, RuleDefinition}
use network_proxy.Rules.Text.{to_lower}
use network_proxy.Rules.Load.{set_when, set_action}

-- A text in lower case, as `matches` compares with.
abbrev pub IsLower : Bytes → Type 0
IsLower s = to_lower s ≡ s

abbrev pub IsCondition : RuleCondition → Type 0
IsCondition w =
    IsLower w.protocol
    × IsLower w.direction
    × IsLower w.host_contains
    × IsLower w.method
    × IsLower w.path_contains
    × IsLower w.process_name
    × w.remote_port ≤ 65535

abbrev pub IsAction : RuleAction → Type 0
IsAction a = All (λ (h : Bytes × Bytes). is_empty h.0 ≡ false) a.header_set

-- What `load_from_file` makes sure of.
abbrev pub IsWellFormed : RuleDefinition → Type 0
IsWellFormed r = (is_empty r.name ≡ false) × IsCondition r.when × IsAction r.action

to_lower_byte-IsLower : (c : ℕ) → to_lower_byte (to_lower_byte c) ≡ to_lower_byte c
unfolding to_lower_byte
to_lower_byte-IsLower c = ground arith

to_lower-IsLower : (s : Bytes) → IsLower (to_lower s)
unfolding to_lower
to_lower-IsLower [] = refl
to_lower-IsLower (c ∷ s) = rw (to_lower_byte-IsLower c, to_lower-IsLower s)

pub set_when-IsCondition :
    (key value : Bytes) (w : RuleCondition)
    → IsCondition w
    → OnSome IsCondition (set_when key value w)
unfolding set_when
set_when-IsCondition key value w (a, b, c, d, e, f, g) =
    let l = to_lower-IsLower value in
    OnSome-if _ (eqb key (codes "when.protocol")) _ _ (λ _. (l, b, c, d, e, f, g))
      λ _.
        OnSome-if _ (eqb key (codes "when.direction")) _ _ (λ _. (a, l, c, d, e, f, g))
          λ _.
            OnSome-if _ (eqb key (codes "when.host_contains")) _ _ (λ _. (a, b, l, d, e, f, g))
              λ _.
                OnSome-if _ (eqb key (codes "when.method")) _ _ (λ _. (a, b, c, l, e, f, g))
                  λ _.
                    OnSome-if _ (eqb key (codes "when.path_contains")) _ _
                      (λ _. (a, b, c, d, l, f, g))
                      λ _.
                        OnSome-if _ (eqb key (codes "when.process")) _ _
                          (λ _. (a, b, c, d, e, l, g)) λ _. tt

pub set_action-IsAction :
    (key value : Bytes) (a : RuleAction) → IsAction a → OnSome IsAction (set_action key value a)
unfolding set_action
set_action-IsAction key value a h =
    OnSome-if _ (eqb key (codes "action.text_find")) _ _ (λ _. h)
      λ _.
        OnSome-if _ (eqb key (codes "action.text_replace")) _ _ (λ _. h)
          λ _.
            OnSome-if _ (eqb key (codes "action.hex_find")) _ _ (λ _. h)
              λ _.
                OnSome-if _ (eqb key (codes "action.hex_replace")) _ _ (λ _. h)
                  λ _.
                    OnSome-if _ (eqb key (codes "action.body_find")) _ _ (λ _. h)
                      λ _. OnSome-if _ (eqb key (codes "action.body_replace")) _ _ (λ _. h) λ _. tt

pub set_header-Named :
    (headers : HeaderMap) (name value : Bytes)
    → is_empty name ≡ false
    → All (λ (h : Bytes × Bytes). is_empty h.0 ≡ false) headers
    → All (λ (h : Bytes × Bytes). is_empty h.0 ≡ false) (set_header headers name value)
unfolding set_header
set_header-Named [] name value n h = (n, tt)
set_header-Named ((m, v) ∷ headers) name value n (k, h) = elim (Bool-cases (eqb m name)) [
  | inl b ↦ rw (set_header, b) (k, h)
  | inr b ↦ rw (set_header, b) (k, set_header-Named headers name value n h)
]
