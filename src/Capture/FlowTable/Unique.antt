-- ===== src/Capture/FlowTable/Unique.antt =====
-- A key stands in the table once, as in any `std::unordered_map`; the operations keep it so.
use network_proxy.Capture.FlowTable.{
  FlowKey, FlowEntry, same_key, Table, find_entry, put_entry, erase_entry, expired,
  prune_expired_locked, remember_mapping, try_get_upstream,
}
use network_proxy.Prelude.{
  ltb, Bool-cases, Option-cases, length, All, Bytes, eqb_refl, eq_of_eqb, ℕ, ◌≡◌, refl, sym, ◌↔◌,
  inl, inr, true, false, none, [], ◌∷◌, arith,
}

pub same_key_iff : (a b : FlowKey) → (same_key a b ≡ true) ↔ (a ≡ b)
unfolding same_key
same_key_iff a b = (
  λ h. ground (arith, eq_of_eqb a.source_ip b.source_ip),
  λ e. rw e (ground (arith, eqb_refl b.source_ip)),
)

abbrev pub Lacks : FlowKey → Table → Type 0
Lacks key = All (λ (r : FlowKey × FlowEntry). same_key r.0 key ≡ false)

abbrev pub IsUnique : Table → Type 0
IsUnique [] = Unit
IsUnique ((k, e) ∷ t) = Lacks k t × IsUnique t

pub find_entry-Lacks : (k : FlowKey) (t : Table) → Lacks k t → find_entry k t ≡ none
unfolding find_entry
find_entry-Lacks k [] h = refl
find_entry-Lacks k ((j, e) ∷ t) (n, h) = rw (n, find_entry) (find_entry-Lacks k t h)

-- What an operation takes away or changes under other keys leaves a key as absent as it was.
Lacks-put :
    (j k : FlowKey) (e : FlowEntry) (t : Table)
    → Lacks j t
    → same_key k j ≡ false
    → Lacks j (put_entry k e t)
unfolding put_entry
Lacks-put j k e [] h n = (n, tt)
Lacks-put j k e ((i, f) ∷ t) (m, h) n = elim (Bool-cases (same_key i k)) [
  | inl s ↦ rw (s, put_entry) (m, h)
  | inr s ↦ rw (s, put_entry) (m, Lacks-put j k e t h n)
]

Lacks-erase : (j k : FlowKey) (t : Table) → Lacks j t → Lacks j (erase_entry k t)
unfolding erase_entry
Lacks-erase j k [] h = tt
Lacks-erase j k ((i, f) ∷ t) (m, h) = elim (Bool-cases (same_key i k)) [
  | inl s ↦ rw (s, erase_entry) h
  | inr s ↦ rw (s, erase_entry) (m, Lacks-erase j k t h)
]

Lacks-prune : (j : FlowKey) (now : ℕ) (t : Table) → Lacks j t → Lacks j (prune_expired_locked now t)
unfolding prune_expired_locked
Lacks-prune j now [] h = tt
Lacks-prune j now ((i, f) ∷ t) (m, h) = elim (Bool-cases (expired now f)) [
  | inl s ↦ rw (s, prune_expired_locked) (Lacks-prune j now t h)
  | inr s ↦ rw (s, prune_expired_locked) (m, Lacks-prune j now t h)
]

same_key_sym : (a b : FlowKey) → same_key a b ≡ false → same_key b a ≡ false
same_key_sym a b h = elim (Bool-cases (same_key b a)) [
  | inl e ↦ absurd (cc (h, (same_key_iff a b).1 (sym ((same_key_iff b a).0 e))))
  | inr e ↦ e
]

pub put_entry-IsUnique :
    (k : FlowKey) (e : FlowEntry) (t : Table) → IsUnique t → IsUnique (put_entry k e t)
unfolding put_entry
put_entry-IsUnique k e [] u = (tt, tt)
put_entry-IsUnique k e ((i, f) ∷ t) (l, u) = elim (Bool-cases (same_key i k)) [
  | inl s ↦ rw (s, put_entry) (l, u)
  | inr s ↦ rw (s, put_entry) (Lacks-put i k e t l (same_key_sym i k s), put_entry-IsUnique k e t u)
]

pub erase_entry-IsUnique : (k : FlowKey) (t : Table) → IsUnique t → IsUnique (erase_entry k t)
unfolding erase_entry
erase_entry-IsUnique k [] u = tt
erase_entry-IsUnique k ((i, f) ∷ t) (l, u) = elim (Bool-cases (same_key i k)) [
  | inl s ↦ rw (s, erase_entry) u
  | inr s ↦ rw (s, erase_entry) (Lacks-erase i k t l, erase_entry-IsUnique k t u)
]

pub prune-IsUnique : (now : ℕ) (t : Table) → IsUnique t → IsUnique (prune_expired_locked now t)
unfolding prune_expired_locked
prune-IsUnique now [] u = tt
prune-IsUnique now ((i, f) ∷ t) (l, u) = elim (Bool-cases (expired now f)) [
  | inl s ↦ rw (s, prune_expired_locked) (prune-IsUnique now t u)
  | inr s ↦ rw (s, prune_expired_locked) (Lacks-prune i now t l, prune-IsUnique now t u)
]

remember-IsUnique :
    (now : ℕ) (k : FlowKey) (host : Bytes) (port : ℕ) (t : Table)
    → IsUnique t
    → IsUnique (remember_mapping now k host port t)
unfolding remember_mapping
remember-IsUnique now k host port t u = elim (Bool-cases (ltb 4096 (length put))) [
  | inl b ↦ rw (b, remember_mapping) (prune-IsUnique now put (put_entry-IsUnique k _ t u))
  | inr b ↦ rw (b, remember_mapping) (put_entry-IsUnique k _ t u)
]
  where
    put : Table
    put =
        put_entry k
          (record { destination_host = host; destination_port = port; touched_millis = now }) t

try_get-IsUnique :
    (now : ℕ) (k : FlowKey) (t : Table) → IsUnique t → IsUnique (try_get_upstream now k t).1
unfolding try_get_upstream
try_get-IsUnique now k t u = elim (Option-cases (find_entry k t)) [
  | inl n ↦ rw (n, try_get_upstream) u
  | inr (e, f) ↦ elim (Bool-cases (expired now e)) [
    | inl b ↦ rw (f, try_get_upstream, b) (erase_entry-IsUnique k t u)
    | inr b ↦ rw (f, try_get_upstream, b) (put_entry-IsUnique k _ t u)
  ]
]

-- A table in which every key stands once stays so under both operations.
pub operations-IsUnique :
    (now : ℕ) (k : FlowKey) (host : Bytes) (port : ℕ) (t : Table)
    → IsUnique t
    → IsUnique (remember_mapping now k host port t) × IsUnique (try_get_upstream now k t).1
operations-IsUnique now k host port t u =
    (remember-IsUnique now k host port t u, try_get-IsUnique now k t u)
