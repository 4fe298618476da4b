-- ===== src/Capture/FlowTable/View.antt =====
-- What a reader sees of the table: a map from flows to targets whose entries run out.
use network_proxy.Capture.FlowTable.{
  remember_mapping, FlowKey, FlowEntry, same_key, Table, find_entry, put_entry, erase_entry,
  expired, prune_expired_locked, try_get_upstream,
}
use network_proxy.Capture.FlowTable.Unique.{
  same_key_iff, IsUnique, find_entry-Lacks, put_entry-IsUnique,
}
use network_proxy.Prelude.{
  ltb, leb, if◌then◌else◌, Bool-cases, Option-cases, ◌>>=◌, length, Bytes, ℕ, ◌+◌, ◌≤◌, ◌≡◌, refl,
  inl, inr, Option, none, some, [], ◌∷◌, arith,
}

-- The answer of `try_get_upstream` at a time.
abbrev pub lookup : ℕ → FlowKey → Table → Option (Bytes × ℕ)
lookup now key t = (try_get_upstream now key t).0

target : ℕ → Option FlowEntry → Option (Bytes × ℕ)
target now none = none
target now (some e) = if expired now e then none else some (e.destination_host, e.destination_port)

lookup-target : (now : ℕ) (k : FlowKey) (t : Table) → lookup now k t ≡ target now (find_entry k t)
unfolding try_get_upstream target
lookup-target now k t = ground arith

find_entry-put :
    (j k : FlowKey) (e : FlowEntry) (t : Table)
    → find_entry j (put_entry k e t) ≡ (if same_key k j then some e else find_entry j t)
unfolding find_entry put_entry
find_entry-put j k e [] = refl
find_entry-put j k e ((i, f) ∷ t) =
    ground (arith, same_key_iff k j, same_key_iff i k, same_key_iff i j, find_entry-put j k e t)

find_entry-erase :
    (j k : FlowKey) (t : Table)
    → IsUnique t
    → find_entry j (erase_entry k t) ≡ (if same_key k j then none else find_entry j t)
unfolding find_entry erase_entry
find_entry-erase j k [] u = ground arith
find_entry-erase j k ((i, f) ∷ t) (l, u) = ground (
  arith,
  same_key_iff k j,
  same_key_iff i k,
  same_key_iff i j,
  find_entry-erase j k t u,
  find_entry-Lacks i t l,
)

keep : ℕ → Option FlowEntry → Option FlowEntry
keep now none = none
keep now (some e) = if expired now e then none else some e

find_entry-prune :
    (j : FlowKey) (now : ℕ) (t : Table)
    → IsUnique t
    → find_entry j (prune_expired_locked now t) ≡ keep now (find_entry j t)
unfolding find_entry prune_expired_locked keep
find_entry-prune j now [] u = refl
find_entry-prune j now ((i, f) ∷ t) (l, u) =
    ground (arith, same_key_iff i j, find_entry-prune j now t u, find_entry-Lacks i t l)

-- Time goes on, and what has expired stays expired.
target-keep :
    (now now' : ℕ) (o : Option FlowEntry) → now ≤ now' → target now' (keep now o) ≡ target now' o
unfolding target keep expired
target-keep now now' none h = refl
target-keep now now' (some e) h = ground arith

target-put :
    (now now' : ℕ) (k j : FlowKey) (host : Bytes) (port : ℕ) (t : Table)
    → target now' (
        find_entry j (
          put_entry k
            (record { destination_host = host; destination_port = port; touched_millis = now })
            t))
      ≡ (if same_key k j
          then (if leb now' (now + 120000) then some (host, port) else none)
          else target now' (find_entry j t))
unfolding target expired
target-put now now' k j host port t = rw (find_entry-put j k _ t) (ground arith)

-- From its call on, `remember_mapping` answers for its flow, and for 120 seconds; every other flow
-- has the answer that it had. That old entries are pruned cannot be seen.
pub lookup-remember :
    (now now' : ℕ) (k j : FlowKey) (host : Bytes) (port : ℕ) (t : Table)
    → IsUnique t
    → now ≤ now'
    → lookup now' j (remember_mapping now k host port t) ≡ (
        if same_key k j
        then (if leb now' (now + 120000) then some (host, port) else none)
        else lookup now' j t)
unfolding remember_mapping
lookup-remember now now' k j host port t u h =
    rw (lookup-target now' j t, lookup-target now' j (remember_mapping now k host port t))
      (elim (Bool-cases (ltb 4096 (length put))) [
        | inl b ↦
            rw
              (
                remember_mapping,
                b,
                find_entry-prune j now put (put_entry-IsUnique k _ t u),
                target-keep now now' (find_entry j put) h,
              )
              (target-put now now' k j host port t)
        | inr b ↦ rw (remember_mapping, b) (target-put now now' k j host port t)
      ])
  where
    put : Table
    put =
        put_entry k
          (record { destination_host = host; destination_port = port; touched_millis = now }) t

-- A read that succeeds gives its flow another 120 seconds, and one that fails leaves it with no
-- answer; every other flow has the answer that it had.
pub lookup-try_get :
    (now now' : ℕ) (k j : FlowKey) (t : Table)
    → IsUnique t
    → now ≤ now'
    → lookup now' j (try_get_upstream now k t).1 ≡ (
        if same_key k j
        then (lookup now k t >>= λ found. if leb now' (now + 120000) then some found else none)
        else lookup now' j t)
unfolding try_get_upstream target expired
lookup-try_get now now' k j t u h = elim (Option-cases (find_entry k t)) [
  | inl n ↦ ground (arith, n, same_key_iff k j, lookup-target now' j t)
  | inr (e, f) ↦ ground (
    arith,
    f,
    same_key_iff k j,
    find_entry-erase j k t u,
    find_entry-put j k (record e { touched_millis = now }) t,
  )
]
