-- ===== src/StateDb/Iteration.antt =====
-- The batch's range iterator yields the updates of the range, in ascending order of their keys.
use mathlib.Core.Bool.{false≢true}
use mathlib.Core.Path.{subst}
use fabric.Prelude.{
  ◌-◌, ◌≡◌, refl, sym, Option, none, some, List, [], ◌∷◌, arith, take, drop, if◌then◌else◌,
}
use fabric.Prelude.Bytes.{Bytes, bytes_Eq}
use fabric.Prelude.Assoc.{lookup, keys, lookup-keys-none}
use fabric.StateDb.{
  VersionedKv, NsUpdates, UpdateBatch, get, next, index_from, index_to, iterator_over,
  empty_iterator, get_range_scan_iterator,
}
use fabric.StateDb.Scan.{find, is_below, in_range, IsScan, Yields}
use fabric.StateDb.Batch.{IsBatch, lookup-IsBatch}
use fabric.StateDb.SortedKeys.{
  Distinct, get_sorted_keys, get_sorted_keys-Ascending, lead, is_before, is_before-IsDownward,
  IsDownward, search_strings-lead, length-lead, between, slice-between, lead-nil, lead-le-length,
  between-Ascending,
}
use fabric.StateDb.Entries.{
  entries, Present, next-Yields, find-entries, contains-between, contains-get_sorted_keys,
  Present-contains, kv_keys-entries, entries-in_ns,
}

abbrev keys_in : Bytes → Bytes → NsUpdates → List Bytes
keys_in start_key end_key m =
    between (is_before start_key) (is_below end_key) (get_sorted_keys (keys m))

index_from-lead : (ks : List Bytes) (x : Bytes) → index_from ks x ≡ lead (is_before x) ks
index_from-lead ks (b ∷ bs) = search_strings-lead ks (b ∷ bs)
index_from-lead ks [] = sym (lead-nil ks)

index_to-lead : (ks : List Bytes) (x : Bytes) → index_to ks x ≡ lead (is_below x) ks
index_to-lead ks (b ∷ bs) = search_strings-lead ks (b ∷ bs)
index_to-lead ks [] = length-lead ks

is_below-IsDownward : (x : Bytes) → IsDownward (is_below x)
is_below-IsDownward [] a b l e = absurd (false≢true (sym e))
is_below-IsDownward (x ∷ xs) a b l e = is_before-IsDownward (x ∷ xs) a b l e

keys_in-Present :
    (start_key end_key : Bytes) (m : NsUpdates) → Present m (keys_in start_key end_key m)
keys_in-Present start_key end_key m = Present-contains m (keys_in start_key end_key m) λ k h.
    ground (
      arith,
      contains-between (is_before start_key) (is_below end_key) k (get_sorted_keys (keys m)),
      contains-get_sorted_keys k (keys m),
    )

find-keys_in :
    (ns start_key end_key : Bytes) (m : NsUpdates) (k : Bytes)
    → find k (entries ns m (keys_in start_key end_key m))
      ≡ (if in_range start_key end_key k then lookup k m else none)
find-keys_in ns start_key end_key m k = ground (
  arith,
  find-entries ns m k (keys_in start_key end_key m),
  contains-between (is_before start_key) (is_below end_key) k (get_sorted_keys (keys m)),
  contains-get_sorted_keys k (keys m),
  lookup-keys-none k m,
)

module _ (ns start_key end_key : Bytes) (m : NsUpdates) (d : Distinct (keys m)) where
  slice_keys :
      take
        (index_to (get_sorted_keys (keys m)) end_key
          - index_from (get_sorted_keys (keys m)) start_key)
        (drop (index_from (get_sorted_keys (keys m)) start_key) (get_sorted_keys (keys m)))
      ≡ keys_in start_key end_key m
  slice_keys =
      rw
        (
          index_to-lead (get_sorted_keys (keys m)) end_key,
          index_from-lead (get_sorted_keys (keys m)) start_key,
        )
        (slice-between (is_before start_key) (is_below end_key) (get_sorted_keys (keys m))
          (is_before-IsDownward start_key) (is_below-IsDownward end_key)
          (get_sorted_keys-Ascending (keys m) d))

  iterator_over-Yields :
      Yields next
        (iterator_over ns start_key end_key m)
        (entries ns m (keys_in start_key end_key m))
  iterator_over-Yields =
      subst (λ ks. Yields next (iterator_over ns start_key end_key m) (entries ns m ks)) slice_keys
        (next-Yields ns m (get_sorted_keys (keys m)) (index_to (get_sorted_keys (keys m)) end_key) _
          (index_from (get_sorted_keys (keys m)) start_key) _ refl
          (rw (index_to-lead (get_sorted_keys (keys m)) end_key)
            (lead-le-length (is_below end_key) (get_sorted_keys (keys m))))
          refl (subst (Present m) (sym slice_keys) (keys_in-Present start_key end_key m)))

  iterator_over-IsScan :
      IsScan ns
        (in_range start_key end_key)
        (λ k. lookup k m)
        (entries ns m (keys_in start_key end_key m))
  iterator_over-IsScan = record {
    ascending =
        rw
          (kv_keys-entries ns m (keys_in start_key end_key m) (keys_in-Present start_key end_key m))
          (between-Ascending (is_before start_key) (is_below end_key) (get_sorted_keys (keys m))
            (get_sorted_keys-Ascending (keys m) d));
    in_ns = entries-in_ns ns m (keys_in start_key end_key m) (keys_in-Present start_key end_key m);
    exact = find-keys_in ns start_key end_key m;
  }

-- For a batch with distinct keys, the iterator of a range yields exactly the batch's entries at the
-- keys of the range, deletions included, in ascending order, and then nil.
pub get_range_scan_iterator-IsScan :
    (b : UpdateBatch) (ns start_key end_key : Bytes)
    → IsBatch b
    → (l : List VersionedKv) × Yields next (get_range_scan_iterator b ns start_key end_key) l
      × IsScan ns (in_range start_key end_key) (get b ns) l
unfolding get_range_scan_iterator get
get_range_scan_iterator-IsScan b ns start_key end_key h = go (lookup ns b) refl
  where
    go :
        (o : Option NsUpdates)
        → lookup ns b ≡ o
        → (l : List VersionedKv) × Yields next (get_range_scan_iterator b ns start_key end_key) l
          × IsScan ns (in_range start_key end_key) (get b ns) l
    go none e = (
      [],
      rw (e, get_range_scan_iterator) (empty_iterator, unfold next in refl),
      record { ascending = tt; in_ns = tt; exact = λ k. rw (e, get) (unfold find in ground arith) },
    )
    go (some m) e = (
      entries ns m (keys_in start_key end_key m),
      rw (e, get_range_scan_iterator)
          (iterator_over-Yields ns start_key end_key m (lookup-IsBatch b ns m h e)),
      rw (e, get) (iterator_over-IsScan ns start_key end_key m (lookup-IsBatch b ns m h e)),
    )
