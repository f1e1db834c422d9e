-- ===== src/Validator/Combined/Selection.antt =====
-- What the combined iterator selects, and what it stands before then.
use fabric.Prelude.{◌≡◌, Option, some, Ordering, List, ◌∷◌}
use fabric.Prelude.Outcome.{ok}
use fabric.StateDb
use fabric.StateDb.{VersionedValue, VersionedKv}
use fabric.StateDb.VersionedDb.{VersionedDb}
use fabric.Validator.Combined.{CombinedIterator, compare_keys, select}
use fabric.Validator.Combined.Steps.{advance, Holds}

module _ (db : VersionedDb) where
  -- Selecting from the database moves its iterator alone; so with the updates; equal keys move both.
  pub select_db :
      (itr : CombinedIterator db) (d : VersionedKv) (dl ul : List VersionedKv)
      → compare_keys itr.db_item itr.updates_item ≡ Ordering.lt
      → Holds db itr (d ∷ dl) ul
      → (item : Option VersionedKv) × (rest : db.Itr) × (select db itr
          ≡ ok (some d, record itr { db_itr = rest; db_item = item }))
        × Holds db (record itr { db_itr = rest; db_item = item }) dl ul
  unfolding select
  select_db itr d dl ul o h =
      let (item, rest, e, front) = advance db.next_item itr.db_itr dl h.db_front.1 in
      (
        item,
        rest,
        rw (o, select) (rw e (rw (h.db_front.0))),
        record { db_front = front; updates_front = h.updates_front },
      )

  pub select_updates :
      (itr : CombinedIterator db) (u : VersionedKv) (dl ul : List VersionedKv)
      → compare_keys itr.db_item itr.updates_item ≡ Ordering.gt
      → Holds db itr dl (u ∷ ul)
      → (item : Option VersionedKv) × (rest : StateDb.NsIterator) × (select db itr
          ≡ ok (some u, record itr { updates_itr = rest; updates_item = item }))
        × Holds db (record itr { updates_itr = rest; updates_item = item }) dl ul
  unfolding select
  select_updates itr u dl ul o h =
      let (item, rest, e, front) = advance StateDb.next itr.updates_itr ul h.updates_front.1 in
      (
        item,
        rest,
        rw (o, select) (rw e (rw (h.updates_front.0))),
        record { db_front = h.db_front; updates_front = front },
      )

  pub select_both :
      (itr : CombinedIterator db) (d u : VersionedKv) (dl ul : List VersionedKv)
      → compare_keys itr.db_item itr.updates_item ≡ Ordering.eq
      → Holds db itr (d ∷ dl) (u ∷ ul)
      → (item item' : Option VersionedKv) × (rest : db.Itr) × (rest' : StateDb.NsIterator) × (select
            db itr
          ≡ ok (
            some u,
            record itr { db_itr = rest; db_item = item; updates_itr = rest'; updates_item = item' },
          ))
        × Holds db
            (record itr {
              db_itr = rest;
              db_item = item;
              updates_itr = rest';
              updates_item = item';
            })
            dl
            ul
  unfolding select
  select_both itr d u dl ul o h =
      let (item, rest, e, front) = advance db.next_item itr.db_itr dl h.db_front.1 in
      let (item', rest', e', front') = advance StateDb.next itr.updates_itr ul h.updates_front.1 in
      (
        item,
        item',
        rest,
        rest',
        rw (o, select) (rw e (rw e' (rw (h.updates_front.0)))),
        record { db_front = front; updates_front = front' },
      )
