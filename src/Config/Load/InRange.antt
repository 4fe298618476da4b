-- ===== src/Config/Load/InRange.antt =====
-- The reader of the configuration file keeps the numbers in their types.
use network_proxy.Prelude.{
  if◌then◌else◌, Option-cases, is_empty, Bytes, codes, starts_with, getlines, ℕ, ◌+◌, ◌≡◌, refl,
  ◌⊎◌, inl, inr, Bool, true, false, ◌||◌, Option, none, some, List, [], ◌∷◌,
}
use network_proxy.Common.{trim_copy, split_once}
use network_proxy.Config.Types.{AppConfig}
use network_proxy.Config.Keys.{Outcome, unknown, invalid, stored, set_key}
use network_proxy.Config.Load.{
  ConfigError, invalid_value, Reader, Round, next, refuse, is_section_line, full_key_of, store_key,
  process_line, load_loop, load_from_file,
}
use network_proxy.Config.Load.Ports.{IsInRange, OnStored, set_key-IsInRange}

abbrev OnNext : Round → Type 0
OnNext (next r) = IsInRange r.config
OnNext (refuse e) = Unit

OnNext-if : (b : Bool) (x y : Round) → OnNext x → OnNext y → OnNext (if b then x else y)
OnNext-if true x y f g = f
OnNext-if false x y f g = g

store_key-IsInRange :
    (r : Reader) (n : ℕ) (full_key value : Bytes)
    → IsInRange r.config
    → OnNext (store_key r n full_key value)
unfolding store_key
store_key-IsInRange r n full_key value h =
    pass (set_key full_key value r.config) (set_key-IsInRange full_key value r.config h)
  where
    pass :
        (o : Outcome)
        → OnStored o
        → OnNext (elim o [
          | unknown ↦ next r
          | invalid ↦ refuse (invalid_value full_key n)
          | stored c ↦ next (record r { config = c })
        ])
    pass unknown k = h
    pass invalid k = tt
    pass (stored c) k = k

process_line-IsInRange :
    (r : Reader) (n : ℕ) (line : Bytes) → IsInRange r.config → OnNext (process_line r n line)
unfolding process_line
process_line-IsInRange r n line h =
    let trimmed_line = trim_copy line in
    OnNext-if (is_empty trimmed_line || starts_with trimmed_line (codes "#")) _ _ h (
      OnNext-if (is_section_line trimmed_line) _ _ h
        (elim (Option-cases (split_once trimmed_line b':')) [
          | inl e ↦ rw e tt
          | inr ((key, value), e) ↦ rw e (
              store_key-IsInRange r n (full_key_of r.section_name (trim_copy key)) (trim_copy value)
                h)
        ]))

Round-cases : (r : Round) → ((s : Reader) × (r ≡ next s)) ⊎ ((e : ConfigError) × (r ≡ refuse e))
Round-cases (next s) = inl (s, refl)
Round-cases (refuse e) = inr (e, refl)

load_loop-IsInRange :
    (r : Reader) (n : ℕ) (lines : List Bytes)
    → IsInRange r.config
    → IsInRange (load_loop r n lines).config
unfolding load_loop
load_loop-IsInRange r n [] h = h
load_loop-IsInRange r n (line ∷ lines) h =
    let k = process_line-IsInRange r (n + 1) line h in
    elim (Round-cases (process_line r (n + 1) line)) [
      | inl (r', e) ↦ rw (load_loop, e) (load_loop-IsInRange r' (n + 1) lines (rw e at k))
      | inr (error, e) ↦ rw (load_loop, e) h
    ]

-- Whatever a configuration file contains, and whether it is accepted or refused, the four ports are
-- at most 65535 and the time limit is below 2³² afterwards, where they were so before.
pub load_from_file-IsInRange :
    (config : AppConfig) (file : Option Bytes)
    → IsInRange config
    → IsInRange (load_from_file config file).config
unfolding load_from_file
load_from_file-IsInRange config none h = h
load_from_file-IsInRange config (some text) h = load_loop-IsInRange _ 0 (getlines text) h
