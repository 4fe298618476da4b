-- ===== src/Capture/FlowTable.antt =====
-- src/capture/flow_table.cpp: the table of redirected flows. The clock is an argument of each call,
-- and the mutex makes each call one step. Times are milliseconds of a clock that never goes back.
pub mod Unique
pub mod View
use network_proxy.Prelude.{
  ltb, ◌==◌, if◌then◌else◌, length, Bytes, eqb, ℕ, ◌+◌, Bool, ◌&&◌, Option, none, some, List, [],
  ◌∷◌,
}

pub record FlowKey : Type 0 where
  pub protocol : ℕ
  pub source_ip : Bytes
  pub source_port : ℕ

pub record FlowEntry : Type 0 where
  pub destination_host : Bytes
  pub destination_port : ℕ
  pub touched_millis : ℕ

-- `FlowKey::operator==`
unfoldable pub same_key : FlowKey → FlowKey → Bool
same_key a b =
    a.protocol == b.protocol && (eqb a.source_ip b.source_ip && a.source_port == b.source_port)

abbrev pub Table : Type 0
Table = List (FlowKey × FlowEntry)

abbrev pub k_entry_ttl_millis : ℕ
k_entry_ttl_millis = 120000

unfoldable pub find_entry : FlowKey → Table → Option FlowEntry
find_entry key [] = none
find_entry key ((k, e) ∷ table) = if same_key k key then some e else find_entry key table

-- `table_[key] = entry`
unfoldable pub put_entry : FlowKey → FlowEntry → Table → Table
put_entry key entry [] = (key, entry) ∷ []
put_entry key entry ((k, e) ∷ table) =
    let rest = put_entry key entry table in
    if same_key k key then (k, entry) ∷ table else (k, e) ∷ rest

-- `table_.erase(iterator)`
unfoldable pub erase_entry : FlowKey → Table → Table
erase_entry key [] = []
erase_entry key ((k, e) ∷ table) =
    let rest = erase_entry key table in if same_key k key then table else (k, e) ∷ rest

-- `(now - touched_millis) > k_entry_ttl_millis`, on signed numbers.
unfoldable pub expired : ℕ → FlowEntry → Bool
expired now entry = ltb (entry.touched_millis + k_entry_ttl_millis) now

unfoldable pub prune_expired_locked : ℕ → Table → Table
prune_expired_locked now [] = []
prune_expired_locked now ((k, e) ∷ table) =
    let rest = prune_expired_locked now table in if expired now e then rest else (k, e) ∷ rest

abbrev pub k_prune_size : ℕ
k_prune_size = 4096

unfoldable pub remember_mapping : ℕ → FlowKey → Bytes → ℕ → Table → Table
remember_mapping now key destination_host destination_port table =
    let table' =
      put_entry key
        (record {
          destination_host = destination_host;
          destination_port = destination_port;
          touched_millis = now;
        })
        table in
    if ltb k_prune_size (length table') then prune_expired_locked now table' else table'

unfoldable pub try_get_upstream : ℕ → FlowKey → Table → Option (Bytes × ℕ) × Table
try_get_upstream now key table = elim (find_entry key table) [
  | none ↦ (none, table)
  | some entry ↦ if expired now entry then (none, erase_entry key table) else (
    some (entry.destination_host, entry.destination_port),
    put_entry key (record entry { touched_millis = now }) table,
  )
]
