-- ===== src/Validator/Combined.antt =====
-- core/ledger/kvledger/txmgmt/validator/statebasedval/combined_iterator.go: the range of the
-- database with the updates of the block's earlier transactions on top.
pub mod Merge
pub mod Steps
pub mod Selection
pub mod Runs
pub mod Overlay
pub mod RangeQuery
use fabric.Prelude.{
  ℕ, zero, suc, Option, none, some, Bool, true, false, not, ◌&&◌, ◌||◌, Ordering, if◌then◌else◌,
}
use fabric.Prelude.Bytes.{Bytes, compare_bytes}
use fabric.Prelude.Outcome.{Outcome, ok, panic, ◌>>=◌}
use fabric.StateDb
use fabric.StateDb.{VersionedValue, VersionedKv, UpdateBatch, NsIterator}
use fabric.StateDb.VersionedDb.{VersionedDb}

pub record CombinedIterator (db : VersionedDb) : Type 0 where
  pub ns : Bytes
  pub updates : UpdateBatch
  pub end_key : Bytes
  pub include_end_key : Bool
  pub db_itr : db.Itr
  pub updates_itr : NsIterator
  pub db_item : Option VersionedKv
  pub updates_item : Option VersionedKv
  pub end_key_served : Bool

unfoldable pub compare_keys : Option VersionedKv → Option VersionedKv → Ordering
compare_keys none none = Ordering.eq
compare_keys none (some item2) = Ordering.gt
compare_keys (some item1) none = Ordering.lt
compare_keys (some item1) (some item2) = compare_bytes item1.key item2.key

-- The value from the updates, or else the one from the database.
abbrev pub latest_at :
    Option VersionedValue → Outcome (Option VersionedValue) → Outcome (Option VersionedValue)
latest_at none from_db = from_db
latest_at (some vv) from_db = ok (some vv)

abbrev pub both_nil : Option VersionedKv → Option VersionedKv → Bool
both_nil none none = true
both_nil _ _ = false

module _ (db : VersionedDb) where
  unfoldable pub new_combined_iterator :
      UpdateBatch → Bytes → Bytes → Bytes → Bool → Outcome (CombinedIterator db)
  new_combined_iterator updates ns start_key end_key include_end_key = do
    db_itr ← db.get_state_range_scan_iterator ns start_key end_key
    let updates_itr = StateDb.get_range_scan_iterator updates ns start_key end_key
    (db_item, db_itr') ← db.next_item db_itr
    (updates_item, updates_itr') ← StateDb.next updates_itr
    ok (record {
      ns = ns;
      updates = updates;
      end_key = end_key;
      include_end_key = include_end_key;
      db_itr = db_itr';
      updates_itr = updates_itr';
      db_item = db_item;
      updates_item = updates_item;
      end_key_served = false;
    })

  unfoldable pub move_db_itr : CombinedIterator db → Outcome (CombinedIterator db)
  move_db_itr itr = do
    (item, rest) ← db.next_item itr.db_itr
    ok (record itr { db_itr = rest; db_item = item })

  unfoldable pub move_updates_itr : CombinedIterator db → Outcome (CombinedIterator db)
  move_updates_itr itr = do
    (item, rest) ← StateDb.next itr.updates_itr
    ok (record itr { updates_itr = rest; updates_item = item })

  -- The selected item, and the iterator behind it.
  unfoldable pub select : CombinedIterator db → Outcome (Option VersionedKv × CombinedIterator db)
  unfolding compare_keys move_db_itr move_updates_itr
  select itr = elim (compare_keys itr.db_item itr.updates_item) [
    | Ordering.lt ↦ do moved ← move_db_itr itr; ok (itr.db_item, moved)
    | Ordering.eq ↦ do
      moved ← move_db_itr itr
      moved' ← move_updates_itr moved
      ok (itr.updates_item, moved')
    | Ordering.gt ↦ do moved ← move_updates_itr itr; ok (itr.updates_item, moved)
  ]

  -- An item with a nil value is a deletion, and is not delivered.
  abbrev pub end_item : CombinedIterator db → Option VersionedValue → Option VersionedKv
  end_item itr none = none
  end_item itr (some vv) = elim vv.value [
    | none ↦ none
    | some b ↦
        some
          (record { namespace = itr.ns; key = itr.end_key; value = vv.value; version = vv.version })
  ]

  unfoldable pub serve_end_key_if_needed :
      CombinedIterator db → Outcome (Option VersionedKv × CombinedIterator db)
  serve_end_key_if_needed itr =
      if not itr.include_end_key || itr.end_key_served then ok (none, itr) else do
        vv ←
            latest_at (StateDb.get itr.updates itr.ns itr.end_key) (db.get_state itr.ns itr.end_key)
        ok (end_item itr vv, record itr { end_key_served = true })

  -- The recursion passes over one deleted key at a time, so the number of the items that are left
  -- bounds it; at the bound the run stops in a panic.
  unfoldable pub next : ℕ → CombinedIterator db → Outcome (Option VersionedKv × CombinedIterator db)
  unfolding select serve_end_key_if_needed
  next zero itr = panic
  next (suc fuel) itr = elim (both_nil itr.db_item itr.updates_item) [
    | true ↦ serve_end_key_if_needed itr
    | false ↦ select itr >>= λ (selected, moved). elim selected [
      | none ↦ panic
      | some kv ↦ elim kv.value [ none ↦ next fuel moved | some b ↦ ok (some kv, moved) ]
    ]
  ]
