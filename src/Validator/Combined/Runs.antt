-- ===== src/Validator/Combined/Runs.antt =====
-- The combined iterator delivers the merge of what its two iterators have left, and then the end key
-- if that was asked for.
use fabric.Prelude.{
  ℕ, zero, suc, ◌+◌, ◌≤◌, ◌<◌, ◌≡◌, Option, Ordering, List, [], ◌∷◌, ◌++◌, arith, length,
}
use fabric.Prelude.Bytes.{compare_bytes}
use fabric.Prelude.Outcome.{ok}
use fabric.StateDb.{VersionedValue, VersionedKv}
use fabric.StateDb.VersionedDb.{VersionedDb}
use fabric.Validator.Combined.{CombinedIterator, compare_keys, next}
use fabric.Validator.Combined.Merge.{live, merge}
use fabric.Validator.Combined.Steps.{
  Delivers, Holds, end_items, end-Delivers, deliver_live, live-append,
}
use fabric.Validator.Combined.Selection.{select_db, select_updates, select_both}

module _ (db : VersionedDb) where
  -- From any state before `dl` and `ul`, with fuel above `n`, the iterator delivers `m` and the end key.
  abbrev Continues :
      ℕ
      → ℕ
      → Option VersionedValue
      → List VersionedKv
      → List VersionedKv
      → List VersionedKv
      → Type 0
  Continues n g in_db dl ul m =
      (k : ℕ) (itr : CombinedIterator db)
      → n < k
      → db.get_state itr.ns itr.end_key ≡ ok in_db
      → Holds db itr dl ul
      → Delivers (next db g) (next db k itr) (m ++ end_items db itr in_db)

  pick_db :
      (n f g : ℕ) (itr : CombinedIterator db) (d : VersionedKv) (dl ul m : List VersionedKv)
      (in_db : Option VersionedValue)
      → compare_keys itr.db_item itr.updates_item ≡ Ordering.lt
      → n < f
      → n < g
      → db.get_state itr.ns itr.end_key ≡ ok in_db
      → Holds db itr (d ∷ dl) ul
      → Continues n g in_db dl ul m
      → Delivers (next db g) (next db (suc f) itr) (live d m ++ end_items db itr in_db)
  pick_db n f g itr d dl ul m in_db o hf hg gs h on =
      let (item, rest, s, h') = select_db db itr d dl ul o h in
      let moved : CombinedIterator db = record itr { db_itr = rest; db_item = item } in
      rw (live-append db d m (end_items db itr in_db)) (
        deliver_live db itr moved d (m ++ end_items db itr in_db) f g (ground (arith, h.db_front.0))
          s (on f moved hf gs h') (on g moved hg gs h'))

  pick_updates :
      (n f g : ℕ) (itr : CombinedIterator db) (u : VersionedKv) (dl ul m : List VersionedKv)
      (in_db : Option VersionedValue)
      → compare_keys itr.db_item itr.updates_item ≡ Ordering.gt
      → n < f
      → n < g
      → db.get_state itr.ns itr.end_key ≡ ok in_db
      → Holds db itr dl (u ∷ ul)
      → Continues n g in_db dl ul m
      → Delivers (next db g) (next db (suc f) itr) (live u m ++ end_items db itr in_db)
  pick_updates n f g itr u dl ul m in_db o hf hg gs h on =
      let (item, rest, s, h') = select_updates db itr u dl ul o h in
      let moved : CombinedIterator db = record itr { updates_itr = rest; updates_item = item } in
      rw (live-append db u m (end_items db itr in_db)) (
        deliver_live db itr moved u (m ++ end_items db itr in_db) f g
          (ground (arith, h.updates_front.0)) s (on f moved hf gs h') (on g moved hg gs h'))

  pick_both :
      (n f g : ℕ) (itr : CombinedIterator db) (d u : VersionedKv) (dl ul m : List VersionedKv)
      (in_db : Option VersionedValue)
      → compare_keys itr.db_item itr.updates_item ≡ Ordering.eq
      → n < f
      → n < g
      → db.get_state itr.ns itr.end_key ≡ ok in_db
      → Holds db itr (d ∷ dl) (u ∷ ul)
      → Continues n g in_db dl ul m
      → Delivers (next db g) (next db (suc f) itr) (live u m ++ end_items db itr in_db)
  pick_both n f g itr d u dl ul m in_db o hf hg gs h on =
      let (item, item', rest, rest', s, h') = select_both db itr d u dl ul o h in
      let moved : CombinedIterator db = record itr {
        db_itr = rest;
        db_item = item;
        updates_itr = rest';
        updates_item = item';
      } in
      rw (live-append db u m (end_items db itr in_db)) (
        deliver_live db itr moved u (m ++ end_items db itr in_db) f g
          (ground (arith, h.updates_front.0)) s (on f moved hf gs h') (on g moved hg gs h'))

  -- With more fuel than items, the iterator delivers the merge and then the end key.
  pub next-Delivers :
      (n f g : ℕ) (itr : CombinedIterator db) (dl ul : List VersionedKv)
      (in_db : Option VersionedValue)
      → length dl + length ul ≤ n
      → n < f
      → n < g
      → db.get_state itr.ns itr.end_key ≡ ok in_db
      → Holds db itr dl ul
      → Delivers (next db g) (next db f itr) (merge n dl ul ++ end_items db itr in_db)
  unfolding merge
  next-Delivers n zero g itr dl ul in_db l hf hg gs h = absurd (omega arith)
  next-Delivers zero (suc f) g itr [] [] in_db l hf hg gs h =
      end-Delivers db itr in_db (suc f) g (omega arith) hg h.db_front h.updates_front gs
  next-Delivers zero (suc f) g itr (d ∷ dl) ul in_db l hf hg gs h = absurd (omega arith)
  next-Delivers zero (suc f) g itr [] (u ∷ ul) in_db l hf hg gs h = absurd (omega arith)
  next-Delivers (suc n) (suc f) g itr [] [] in_db l hf hg gs h =
      end-Delivers db itr in_db (suc f) g (omega arith) (omega arith) h.db_front h.updates_front gs
  next-Delivers (suc n) (suc f) g itr (d ∷ dl) [] in_db l hf hg gs h =
      pick_db n f g itr d dl [] (merge n dl []) in_db
        (unfold compare_keys in ground (arith, h.db_front.0, h.updates_front)) (omega arith)
        (omega arith) gs h
        (λ k itr' hk gs' h'.
          next-Delivers n k g itr' dl [] in_db (omega arith) hk (omega arith) gs' h')
  next-Delivers (suc n) (suc f) g itr [] (u ∷ ul) in_db l hf hg gs h =
      pick_updates n f g itr u [] ul (merge n [] ul) in_db
        (unfold compare_keys in ground (arith, h.db_front, h.updates_front.0)) (omega arith)
        (omega arith) gs h
        (λ k itr' hk gs' h'.
          next-Delivers n k g itr' [] ul in_db (omega arith) hk (omega arith) gs' h')
  next-Delivers (suc n) (suc f) g itr (d ∷ dl) (u ∷ ul) in_db l hf hg gs h =
      by_order (compare_bytes d.key u.key)
        (unfold compare_keys in rw (h.db_front.0, h.updates_front.0))
        (λ k itr' hk gs' h'.
          next-Delivers n k g itr' dl (u ∷ ul) in_db (omega arith) hk (omega arith) gs' h')
        (λ k itr' hk gs' h'.
          next-Delivers n k g itr' dl ul in_db (omega arith) hk (omega arith) gs' h')
        (λ k itr' hk gs' h'.
          next-Delivers n k g itr' (d ∷ dl) ul in_db (omega arith) hk (omega arith) gs' h')
    where
      by_order :
          (o : Ordering)
          → compare_keys itr.db_item itr.updates_item ≡ o
          → Continues n g in_db dl (u ∷ ul) (merge n dl (u ∷ ul))
          → Continues n g in_db dl ul (merge n dl ul)
          → Continues n g in_db (d ∷ dl) ul (merge n (d ∷ dl) ul)
          → Delivers (next db g) (next db (suc f) itr) (
              elim o [
                | Ordering.lt ↦ live d (merge n dl (u ∷ ul))
                | Ordering.eq ↦ live u (merge n dl ul)
                | Ordering.gt ↦ live u (merge n (d ∷ dl) ul)
              ]
              ++ end_items db itr in_db)
      by_order Ordering.lt e on_lt on_eq on_gt =
          pick_db n f g itr d dl (u ∷ ul) (merge n dl (u ∷ ul)) in_db e (omega arith) (omega arith)
            gs h on_lt
      by_order Ordering.eq e on_lt on_eq on_gt =
          pick_both n f g itr d u dl ul (merge n dl ul) in_db e (omega arith) (omega arith) gs h
            on_eq
      by_order Ordering.gt e on_lt on_eq on_gt =
          pick_updates n f g itr u (d ∷ dl) ul (merge n (d ∷ dl) ul) in_db e (omega arith)
            (omega arith) gs h on_gt
