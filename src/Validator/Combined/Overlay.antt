-- ===== src/Validator/Combined/Overlay.antt =====
-- The combined iterator is the range scan of the database as it would be with the updates applied.
use fabric.Prelude.{
  ℕ, ◌+◌, ◌≤◌, ◌<◌, ◌≡◌, Option, none, some, Bool, true, false, ◌&&◌, ◌||◌, List, [], ◌∷◌, ◌++◌,
  arith, length, if◌then◌else◌,
}
use fabric.Prelude.Bytes.{Bytes, bytes_eq}
use fabric.Prelude.Outcome.{ok}
use fabric.StateDb
use fabric.StateDb.{VersionedValue, VersionedKv, UpdateBatch}
use fabric.StateDb.Batch.{IsBatch}
use fabric.StateDb.Iteration.{get_range_scan_iterator-IsScan}
use fabric.StateDb.VersionedDb.{VersionedDb, Serves, IsName}
use fabric.StateDb.Scan.{find, in_range, IsScan, Yields}
use fabric.Validator.Combined.{CombinedIterator, new_combined_iterator, next}
use fabric.Validator.Combined.Merge.{
  merge, visible, latest, merge-Ascending, merge-in_ns, find-merge,
}
use fabric.Validator.Combined.Steps.{advance, end_items, Yields-Delivers}
use fabric.Validator.Combined.Runs.{next-Delivers}

-- The value of a key once the updates are applied; a deleted key has none.
unfoldable pub overlay :
    (Bytes → Bytes → Option VersionedValue) → UpdateBatch → Bytes → Bytes → Option VersionedValue
overlay state updates ns k = visible (latest (StateDb.get updates ns k) (state ns k))

-- The keys of the query: the end key belongs to them if it is to be included.
abbrev pub in_query : Bytes → Bytes → Bool → Bytes → Bool
in_query start_key end_key include_end_key k =
    in_range start_key end_key k || (include_end_key && bytes_eq end_key k)

module _ (state : Bytes → Bytes → Option VersionedValue) (updates : UpdateBatch)
    (ns start_key end_key : Bytes) (dl ul : List VersionedKv) (n : ℕ)
    (in_db : IsScan ns (in_range start_key end_key) (state ns) dl)
    (in_updates : IsScan ns (in_range start_key end_key) (StateDb.get updates ns) ul)
    (fits : length dl + length ul ≤ n) where
  merge-exact :
      (k : Bytes)
      → find k (merge n dl ul)
        ≡ (if in_range start_key end_key k then overlay state updates ns k else none)
  unfolding overlay
  merge-exact k =
      rw
        (
          find-merge k n dl ul fits in_db.ascending in_updates.ascending,
          in_db.exact k,
          in_updates.exact k,
        )
        (ground arith)

  pub merge-IsScan :
      IsScan ns (in_range start_key end_key) (overlay state updates ns) (merge n dl ul)
  merge-IsScan = record {
    ascending = merge-Ascending n dl ul in_db.ascending in_updates.ascending;
    in_ns = merge-in_ns ns n dl ul in_db.in_ns in_updates.in_ns;
    exact = merge-exact;
  }

-- A new iterator stands before the two scans.
abbrev started :
    (db : VersionedDb)
    → UpdateBatch
    → Bytes
    → Bytes
    → Bool
    → db.Itr
    → StateDb.NsIterator
    → Option VersionedKv
    → Option VersionedKv
    → CombinedIterator db
started db updates ns end_key include_end_key db_itr updates_itr db_item updates_item = record {
  ns = ns;
  updates = updates;
  end_key = end_key;
  include_end_key = include_end_key;
  db_itr = db_itr;
  updates_itr = updates_itr;
  db_item = db_item;
  updates_item = updates_item;
  end_key_served = false;
}

unfoldable pub end_list :
    (state : Bytes → Bytes → Option VersionedValue) (updates : UpdateBatch) (ns end_key : Bytes)
    → Bool
    → List VersionedKv
unfolding overlay
end_list state updates ns end_key false = []
end_list state updates ns end_key true = elim (overlay state updates ns end_key) [
  | none ↦ []
  | some vv ↦ record { namespace = ns; key = end_key; value = vv.value; version = vv.version } ∷ []
]

module _ (db : VersionedDb) (state : Bytes → Bytes → Option VersionedValue)
    (serves : Serves db state) (updates : UpdateBatch) (batch : IsBatch updates)
    (ns start_key end_key : Bytes) (include_end_key : Bool) where
  end_items-end_list :
      (db_itr : db.Itr) (updates_itr : StateDb.NsIterator)
      (db_item updates_item : Option VersionedKv)
      → end_items db
          (started db updates ns end_key include_end_key db_itr updates_itr db_item updates_item)
          (state ns end_key)
        ≡ end_list state updates ns end_key include_end_key
  unfolding end_list
  end_items-end_list db_itr updates_itr db_item updates_item = ground arith

  -- The iterator is created, and delivers the merge of the two scans and the end key.
  pub new_combined_iterator-merge :
      IsName ns
      → (itr : CombinedIterator db) × (dl ul : List VersionedKv) × (new_combined_iterator db updates
            ns start_key end_key include_end_key
          ≡ ok itr)
        × IsScan ns (in_range start_key end_key) (state ns) dl
        × IsScan ns (in_range start_key end_key) (StateDb.get updates ns) ul
        × ((fuel : ℕ)
            → length dl + length ul < fuel
            → Yields (next db fuel) itr (
                merge (length dl + length ul) dl ul
                ++ end_list state updates ns end_key include_end_key))
  unfolding new_combined_iterator
  new_combined_iterator-merge named =
      let (db_itr, dl, scan, dy, ds) = serves.scan_ok ns start_key end_key named in
      let (ul, uy, us) = get_range_scan_iterator-IsScan updates ns start_key end_key batch in
      let (db_item, db_itr', de, df) = advance db.next_item db_itr dl dy in
      let (updates_item, updates_itr', ue, uf) =
        advance StateDb.next (StateDb.get_range_scan_iterator updates ns start_key end_key) ul uy in
      let itr : CombinedIterator db =
        started db updates ns end_key include_end_key db_itr' updates_itr' db_item updates_item in
      (
        itr,
        dl,
        ul,
        rw (scan, de, ue),
        ds,
        us,
        λ fuel h. Yields-Delivers (next db fuel) itr _ (
            rw (← end_items-end_list db_itr' updates_itr' db_item updates_item) (
              next-Delivers db (length dl + length ul) fuel fuel itr dl ul (state ns end_key)
                (omega arith) h h (serves.get_state_ok ns end_key)
                (record { db_front = df; updates_front = uf }))),
      )
