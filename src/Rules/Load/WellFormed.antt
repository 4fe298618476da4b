-- ===== src/Rules/Load/WellFormed.antt =====
-- The rules that a file gives, whatever it contains.
use network_proxy.Prelude.{
  ltb, if◌then◌else◌, not-ltb→le, Option-cases, OnSome, OnSome-if, OnSome-some, is_empty, drop, All,
  All-append, Bytes, codes, eqb, starts_with, ends_with_char, pop_back, getlines, stoul, ℕ, ◌+◌,
  ◌≤◌, ◌≡◌, refl, ◌⊎◌, inl, inr, Bool, true, false, not, Option, none, some, List, [], ◌∷◌, arith,
}
use network_proxy.Rules.Types.{empty_rule}
use network_proxy.Rules.Text.{to_lower, trim, unquote, parse_u16, strip_comment, split_key_value}
use network_proxy.Rules.Load.{
  LoadError, Loader, Round, next, refuse, open_rule, set_when, set_action, set_header_key,
  set_remote_port, set_key, process_line, load_loop, initial, load_from_file,
}
use network_proxy.Rules.Load.Fields.{
  IsCondition, IsAction, IsWellFormed, set_when-IsCondition, set_action-IsAction, set_header-Named,
}

-- The rules that are there, and the one being read.
abbrev IsGood : Loader → Type 0
IsGood s =
    All IsWellFormed s.rules
    × (s.in_rule ≡ true → is_empty s.current.name ≡ false)
    × IsCondition s.current.when
    × IsAction s.current.action

abbrev OnNext : Round → Type 0
OnNext (next s) = IsGood s
OnNext (refuse e) = Unit

OnNext-if :
    (b : Bool) (x y : Round)
    → (b ≡ true → OnNext x)
    → (b ≡ false → OnNext y)
    → OnNext (if b then x else y)
OnNext-if true x y f g = f refl
OnNext-if false x y f g = g refl

empty-IsCondition : IsCondition empty_rule.when
unfolding to_lower
empty-IsCondition = (refl, refl, refl, refl, refl, refl, omega arith)

open_rule-IsGood : (s : Loader) (n : ℕ) (line : Bytes) → IsGood s → OnNext (open_rule s n line)
unfolding open_rule
open_rule-IsGood s n line (h, _, _, _) =
    OnNext-if (not (starts_with line (codes "rule "))) _ _ (λ _. tt)
      λ _.
        OnNext-if (not (ends_with_char (trim (drop 5 line)) b'{')) _ _ (λ _. tt)
          λ _.
            OnNext-if (is_empty (unquote (trim (pop_back (trim (drop 5 line)))))) _ _ (λ _. tt)
              λ e. (h, λ _. e, empty-IsCondition, tt)

set_header_key-IsGood :
    (s : Loader) (n : ℕ) (key value : Bytes) → IsGood s → OnNext (set_header_key s n key value)
unfolding set_header_key
set_header_key-IsGood s n key value (h, m, w, a) =
    OnNext-if (not (starts_with key (codes "action.header_set."))) _ _ (λ _. tt)
      λ _.
        OnNext-if (is_empty (drop 18 key)) _ _ (λ _. tt)
          λ e. (h, m, w, set_header-Named s.current.action.header_set (drop 18 key) value e a)

parse_u16-bound : (value : Bytes) → OnSome (λ port. port ≤ 65535) (parse_u16 value)
unfolding parse_u16
parse_u16-bound value = elim (Option-cases (stoul value)) [
  | inl e ↦ rw (parse_u16, e) tt
  | inr (n, e) ↦
      rw (parse_u16, e) (OnSome-if _ (ltb 65535 n) _ _ (λ _. tt) (λ b. not-ltb→le 65535 n b))
]

set_remote_port-IsGood :
    (s : Loader) (n : ℕ) (value : Bytes) → IsGood s → OnNext (set_remote_port s n value)
unfolding set_remote_port
set_remote_port-IsGood s n value (h, m, (x₁, x₂, x₃, x₄, x₅, x₆, _), a) =
    elim (Option-cases (parse_u16 value)) [
      | inl e ↦ rw (set_remote_port, e) tt
      | inr (port, e) ↦
          let b = OnSome-some (λ p. p ≤ 65535) _ port (parse_u16-bound value) e in
          rw (set_remote_port, e) (h, m, (x₁, x₂, x₃, x₄, x₅, x₆, b), a)
    ]

set_key-IsGood :
    (s : Loader) (n : ℕ) (key value : Bytes) → IsGood s → OnNext (set_key s n key value)
unfolding set_key
set_key-IsGood s n key value (h, m, w, a) =
    elim (Option-cases (set_when key value s.current.when)) [
      | inr (w', e) ↦
          let z =
            OnSome-some IsCondition _ w' (set_when-IsCondition key value s.current.when w) e in
          rw (set_key, e) (h, m, z, a)
      | inl e ↦
          rw (set_key, e)
            (OnNext-if (eqb key (codes "when.remote_port")) _ _
              (λ _. set_remote_port-IsGood s n value (h, m, w, a))
              (λ _. elim (Option-cases (set_action key value s.current.action)) [
                | inr (a', f) ↦
                    let z =
                      OnSome-some IsAction _ a' (set_action-IsAction key value s.current.action a)
                        f in
                    rw f (h, m, w, z)
                | inl f ↦ rw f (set_header_key-IsGood s n key value (h, m, w, a))
              ]))
    ]

process_line-IsGood :
    (s : Loader) (n : ℕ) (line : Bytes) → IsGood s → OnNext (process_line s n line)
unfolding process_line
process_line-IsGood s n line (h, m, w, a) =
    let trimmed = trim (strip_comment line) in
    OnNext-if (is_empty trimmed) _ _ (λ _. (h, m, w, a))
      λ _.
        OnNext-if (not s.in_rule) _ _ (λ _. open_rule-IsGood s n trimmed (h, m, w, a))
          λ r.
            OnNext-if (eqb trimmed (codes "}")) _ _
              (λ _. (
                All-append IsWellFormed s.rules _ h ((m (ground arith), w, a), tt),
                (λ e. absurd (cc e)),
                empty-IsCondition,
                tt,
              ))
              (λ _. elim (Option-cases (split_key_value trimmed)) [
                | inl e ↦ rw e tt
                | inr ((key, value), e) ↦
                    rw e (set_key-IsGood s n (trim key) (unquote (trim value)) (h, m, w, a))
              ])

Round-cases : (r : Round) → ((s : Loader) × (r ≡ next s)) ⊎ ((e : LoadError) × (r ≡ refuse e))
Round-cases (next s) = inl (s, refl)
Round-cases (refuse e) = inr (e, refl)

load_loop-IsWellFormed :
    (s : Loader) (n : ℕ) (lines : List Bytes)
    → IsGood s
    → All IsWellFormed (load_loop s n lines).rules
unfolding load_loop
load_loop-IsWellFormed s n [] (h, _, _, _) = h
load_loop-IsWellFormed s n (line ∷ lines) g =
    let k = process_line-IsGood s (n + 1) line g in
    elim (Round-cases (process_line s (n + 1) line)) [
      | inl (s', e) ↦ rw (load_loop, e) (load_loop-IsWellFormed s' (n + 1) lines (rw e at k))
      | inr (error, e) ↦ rw (load_loop, e) g.0
    ]

-- Whatever a rules file contains, and whether it is accepted or refused, each rule that is kept has
-- a name, conditions in lower case, a port of at most 65535, and no header without a name.
pub load_from_file-IsWellFormed :
    (file : Option Bytes) → All IsWellFormed (load_from_file file).rules
unfolding load_from_file
load_from_file-IsWellFormed none = tt
load_from_file-IsWellFormed (some text) =
    load_loop-IsWellFormed initial 0 (getlines text)
      (tt, (λ e. absurd (cc e)), empty-IsCondition, tt)
