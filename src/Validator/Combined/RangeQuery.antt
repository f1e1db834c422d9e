-- ===== src/Validator/Combined/RangeQuery.antt =====
-- A range query against the database with the updates applied, its end key included or not.
use mathlib.Core.List.{append-nil}
use fabric.Prelude.{
  ℕ, ◌<◌, ◌+◌, ◌≡◌, ◌≢◌, refl, ap, ◌∙◌, Option, none, some, Bool, true, false, List, [], ◌∷◌, ◌++◌,
  arith, length, All,
}
use fabric.Prelude.Bytes.{Bytes, Before, bytes_eq_iff, compare_bytes_refl}
use fabric.Prelude.Outcome.{ok}
use fabric.StateDb.{VersionedValue, VersionedKv, UpdateBatch}
use fabric.StateDb.Batch.{IsBatch}
use fabric.StateDb.Scan.{find, kv_keys, in_range, IsScan, Yields}
use fabric.StateDb.Scan.Append.{find-append, Ascending-snoc, keys_pass}
use fabric.StateDb.VersionedDb.{VersionedDb, Serves, IsName}
use fabric.Validator.Combined.{CombinedIterator, new_combined_iterator, next}
use fabric.Validator.Combined.Merge.{merge}
use fabric.Validator.Combined.Overlay.{
  overlay, in_query, end_list, merge-IsScan, new_combined_iterator-merge,
}

-- An end key that is included is not empty.
abbrev pub IsEndKey : Bytes → Bool → Type 0
IsEndKey end_key false = Unit
IsEndKey end_key true = end_key ≢ []

below_end :
    (start_key end_key k : Bytes)
    → end_key ≢ []
    → in_range start_key end_key k ≡ true
    → Before k end_key
below_end start_key [] k h e = absurd (h refl)
below_end start_key (b ∷ bs) k h e = ground arith

out_of_range :
    (start_key end_key : Bytes) → end_key ≢ [] → in_range start_key end_key end_key ≡ false
out_of_range start_key [] h = absurd (h refl)
out_of_range start_key (b ∷ bs) h = ground (arith, compare_bytes_refl (b ∷ bs))

module _ (state : Bytes → Bytes → Option VersionedValue) (updates : UpdateBatch)
    (ns start_key end_key : Bytes) (l : List VersionedKv)
    (scan : IsScan ns (in_range start_key end_key) (overlay state updates ns) l) where
  Before-end : end_key ≢ [] → All (λ k. Before k end_key) (kv_keys l)
  Before-end h =
      All-weaken (kv_keys l) (keys_pass (in_range start_key end_key) l (λ k e. scan.exact k ∙ rw e))
    where
      All-weaken :
          (ks : List Bytes)
          → All (λ k. in_range start_key end_key k ≡ true) ks
          → All (λ k. Before k end_key) ks
      All-weaken [] p = tt
      All-weaken (k ∷ ks) p = (below_end start_key end_key k h p.0, All-weaken ks p.1)

  pub excluded : IsScan ns (in_query start_key end_key false) (overlay state updates ns) (l ++ [])
  excluded = rw append-nil (record {
    ascending = scan.ascending;
    in_ns = scan.in_ns;
    exact = λ k. ground (arith, scan.exact k);
  })

  pub included :
      end_key ≢ []
      → (o : Option VersionedValue) → overlay state updates ns end_key ≡ o
      → IsScan ns (in_query start_key end_key true) (overlay state updates ns) (
          l ++ elim o [
            | none ↦ []
            | some vv ↦
                record { namespace = ns; key = end_key; value = vv.value; version = vv.version }
                ∷ []
          ])
  included h none e = rw append-nil (record {
    ascending = scan.ascending;
    in_ns = scan.in_ns;
    exact =
        λ k. ground (arith, scan.exact k, bytes_eq_iff end_key k, ap (overlay state updates ns), e);
  })
  included h (some vv) e = record {
    ascending = Ascending-snoc l _ scan.ascending (Before-end h);
    in_ns = in_ns-snoc l scan.in_ns;
    exact = λ k.
        rw (find-append k l, scan.exact k)
          (unfold find in
            ground (arith, bytes_eq_iff end_key k, out_of_range start_key end_key h, e));
  }
    where
      in_ns-snoc :
          (m : List VersionedKv)
          → All (λ kv. kv.namespace ≡ ns) m
          → All
              (λ kv. kv.namespace ≡ ns)
              (m
                ++ record { namespace = ns; key = end_key; value = vv.value; version = vv.version }
                  ∷ [])
      in_ns-snoc [] p = (refl, tt)
      in_ns-snoc (x ∷ m) p = (p.0, in_ns-snoc m p.1)

end_list-IsScan :
    (state : Bytes → Bytes → Option VersionedValue) (updates : UpdateBatch)
    (ns start_key end_key : Bytes) (include_end_key : Bool) (l : List VersionedKv)
    → IsEndKey end_key include_end_key
    → IsScan ns (in_range start_key end_key) (overlay state updates ns) l
    → IsScan ns
        (in_query start_key end_key include_end_key)
        (overlay state updates ns)
        (l ++ end_list state updates ns end_key include_end_key)
unfolding end_list
end_list-IsScan state updates ns start_key end_key false l h scan =
    excluded state updates ns start_key end_key l scan
end_list-IsScan state updates ns start_key end_key true l h scan =
    included state updates ns start_key end_key l scan h (overlay state updates ns end_key) refl

-- For a database that serves `state`, a batch with distinct keys and a namespace without zero bytes,
-- where an end key that is to be included is not empty, the combined iterator is created, and delivers
-- exactly the range of `state` with the batch applied, in ascending order and without deleted keys; an
-- included end key belongs to the range, also one before its start. Any fuel above some bound is
-- enough.
pub new_combined_iterator-IsScan :
    (db : VersionedDb) (state : Bytes → Bytes → Option VersionedValue) (updates : UpdateBatch)
    (ns start_key end_key : Bytes) (include_end_key : Bool)
    → Serves db state
    → IsBatch updates
    → IsName ns
    → IsEndKey end_key include_end_key
    → (itr : CombinedIterator db) × (l : List VersionedKv) × (n : ℕ) × (new_combined_iterator db
          updates ns start_key end_key include_end_key
        ≡ ok itr)
      × IsScan ns (in_query start_key end_key include_end_key) (overlay state updates ns) l
      × ((fuel : ℕ) → n < fuel → Yields (next db fuel) itr l)
new_combined_iterator-IsScan db state updates ns start_key end_key include_end_key serves batch
      named end_ok =
    let (itr, dl, ul, e, ds, us, y) =
      new_combined_iterator-merge db state serves updates batch ns start_key end_key include_end_key
        named in
    (
      itr,
      merge (length dl + length ul) dl ul ++ end_list state updates ns end_key include_end_key,
      length dl + length ul,
      e,
      end_list-IsScan state updates ns start_key end_key include_end_key _ end_ok (
          merge-IsScan state updates ns start_key end_key dl ul (length dl + length ul) ds us
            (omega arith)),
      y,
    )
