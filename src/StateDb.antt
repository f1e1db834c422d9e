-- ===== src/StateDb.antt =====
-- core/ledger/kvledger/txmgmt/statedb/statedb.go: versioned values, the batch of updates that a
-- block prepares, and the iterator over a range of its keys.
pub mod SortedKeys
pub mod Scan
pub mod VersionedDb
pub mod Batch
pub mod Entries
pub mod Iteration
use fabric.Prelude.{
  ℕ, ◌+◌, Option, none, some, Bool, true, false, List, [], ◌∷◌, length, get_elem?, leb,
  if◌then◌else◌,
}
use fabric.Prelude.Bytes.{Bytes, bytes_Eq}
use fabric.Prelude.Assoc.{Assoc, lookup, insert, keys}
use fabric.Prelude.Outcome.{Outcome, ok, panic, ◌>>=◌}
use fabric.Version.{Height}
use SortedKeys.{get_sorted_keys, search_strings}

-- A nil value is `none`; it marks a deleted key. A nil version is `none`.
pub record VersionedValue : Type 0 where
  pub value : Option Bytes
  pub version : Option Height

pub record VersionedKv : Type 0 where
  pub namespace : Bytes
  pub key : Bytes
  pub value : Option Bytes
  pub version : Option Height

abbrev pub NsUpdates : Type 0
NsUpdates = Assoc Bytes VersionedValue

abbrev pub UpdateBatch : Type 0
UpdateBatch = Assoc Bytes NsUpdates

abbrev pub new_update_batch : UpdateBatch
new_update_batch = []

abbrev value_in : Bytes → Option NsUpdates → Option VersionedValue
value_in key none = none
value_in key (some ns_updates) = lookup key ns_updates

unfoldable pub get : UpdateBatch → Bytes → Bytes → Option VersionedValue
get batch ns key = value_in key (lookup ns batch)

abbrev pub is_present {ℓ} : {A : Type ℓ} → Option A → Bool
is_present none = false
is_present (some a) = true

unfoldable pub exists : UpdateBatch → Bytes → Bytes → Bool
exists batch ns key = elim (lookup ns batch) [
  | none ↦ false
  | some ns_updates ↦ is_present (lookup key ns_updates)
]

abbrev or_empty : Option NsUpdates → NsUpdates
or_empty none = []
or_empty (some ns_updates) = ns_updates

-- `getOrCreateNsUpdates` and the write to the map that it returns.
unfoldable pub set_in_ns : UpdateBatch → Bytes → Bytes → VersionedValue → UpdateBatch
set_in_ns batch ns key vv = insert ns (insert key vv (or_empty (lookup ns batch))) batch

unfoldable pub put :
    UpdateBatch → Bytes → Bytes → Option Bytes → Option Height → Outcome UpdateBatch
unfolding set_in_ns
put batch ns key none version = panic
put batch ns key (some value) version =
    ok (set_in_ns batch ns key (record { value = some value; version = version }))

unfoldable pub delete : UpdateBatch → Bytes → Bytes → Option Height → UpdateBatch
unfolding set_in_ns
delete batch ns key version = set_in_ns batch ns key (record { value = none; version = version })

unfoldable pub get_updated_namespaces : UpdateBatch → List Bytes
get_updated_namespaces batch = keys batch

unfoldable pub get_updates : UpdateBatch → Bytes → Option NsUpdates
get_updates batch ns = lookup ns batch

pub record NsIterator : Type 0 where
  pub ns : Bytes
  pub ns_updates : NsUpdates
  pub sorted_keys : List Bytes
  pub next_index : ℕ
  pub last_index : ℕ

-- The zero value of the struct.
abbrev empty_iterator : NsIterator
empty_iterator = record {
  ns = [];
  ns_updates = [];
  sorted_keys = [];
  next_index = 0;
  last_index = 0;
}

-- An empty key leaves its end of the range open.
abbrev index_from : List Bytes → Bytes → ℕ
index_from sorted_keys [] = 0
index_from sorted_keys (b ∷ bs) = search_strings sorted_keys (b ∷ bs)

abbrev index_to : List Bytes → Bytes → ℕ
index_to sorted_keys [] = length sorted_keys
index_to sorted_keys (b ∷ bs) = search_strings sorted_keys (b ∷ bs)

abbrev iterator_over : Bytes → Bytes → Bytes → NsUpdates → NsIterator
iterator_over ns start_key end_key ns_updates =
    let sorted_keys = get_sorted_keys (keys ns_updates) in
    record {
      ns = ns;
      ns_updates = ns_updates;
      sorted_keys = sorted_keys;
      next_index = index_from sorted_keys start_key;
      last_index = index_to sorted_keys end_key;
    }

unfoldable pub get_range_scan_iterator : UpdateBatch → Bytes → Bytes → Bytes → NsIterator
get_range_scan_iterator batch ns start_key end_key = elim (lookup ns batch) [
  | none ↦ empty_iterator
  | some ns_updates ↦ iterator_over ns start_key end_key ns_updates
]

abbrev to_kv : Bytes → Bytes → VersionedValue → VersionedKv
to_kv ns key vv = record { namespace = ns; key = key; value = vv.value; version = vv.version }

-- `itr.sortedKeys[itr.nextIndex]` out of bounds and a nil entry of the map panic.
unfoldable pub next : NsIterator → Outcome (Option VersionedKv × NsIterator)
next itr =
    if leb itr.last_index itr.next_index
    then ok (none, itr)
    else elim (get_elem? itr.sorted_keys itr.next_index) [
      | none ↦ panic
      | some key ↦ elim (lookup key itr.ns_updates) [
        | none ↦ panic
        | some vv ↦ ok (some (to_kv itr.ns key vv), record itr { next_index = itr.next_index + 1 })
      ]
    ]
