-- ===== src/StateDb/Entries.antt =====
-- The entries of a namespace's updates at a sorted list of keys, and the iterator that walks them.
use mathlib.Core.Path.{subst}
use native.Mathlib.Numerals.{add-one}
use fabric.Prelude.{
  ℕ, zero, suc, ◌+◌, ◌-◌, ◌≤◌, ◌≡◌, refl, sym, ap, none, some, Bool, true, false, not, ◌&&◌, List,
  [], ◌∷◌, arith, All, length, get_elem?, take, drop, leb, if◌then◌else◌,
}
use fabric.Prelude.Bytes.{Bytes, bytes_eq, bytes_eq_iff, bytes_Eq}
use fabric.Prelude.Assoc.{lookup, keys, contains, lookup-keys-some}
use fabric.StateDb.{VersionedValue, VersionedKv, NsUpdates, NsIterator, to_kv, next}
use fabric.StateDb.Scan.{find, kv_keys, Yields}
use fabric.StateDb.SortedKeys.{get_sorted_keys, insert_key, between}

-- The entries of a map at some keys.
unfoldable pub entries : Bytes → NsUpdates → List Bytes → List VersionedKv
entries ns m [] = []
entries ns m (k ∷ ks) = elim (lookup k m) [
  | none ↦ entries ns m ks
  | some vv ↦ to_kv ns k vv ∷ entries ns m ks
]

entries-cons :
    (ns : Bytes) (m : NsUpdates) (k : Bytes) (ks : List Bytes) (vv : VersionedValue)
    → lookup k m ≡ some vv
    → entries ns m (k ∷ ks) ≡ to_kv ns k vv ∷ entries ns m ks
unfolding entries
entries-cons ns m k ks vv h = rw (h, entries)

abbrev pub Present : NsUpdates → List Bytes → Type 0
Present m = All (λ k. (vv : VersionedValue) × (lookup k m ≡ some vv))

get_elem?-drop :
    (i : ℕ) (ks rest : List Bytes) (k : Bytes) → drop i ks ≡ k ∷ rest → get_elem? ks i ≡ some k
get_elem?-drop zero [] rest k h = cc
get_elem?-drop zero (x ∷ xs) rest k h = ground arith
get_elem?-drop (suc i) [] rest k h = cc
get_elem?-drop (suc i) (x ∷ xs) rest k h = get_elem?-drop i xs rest k h

drop-suc :
    (i : ℕ) (ks rest : List Bytes) (k : Bytes) → drop i ks ≡ k ∷ rest → drop (suc i) ks ≡ rest
drop-suc zero [] rest k h = cc
drop-suc zero (x ∷ xs) rest k h = ground arith
drop-suc (suc i) [] rest k h = cc
drop-suc (suc i) (x ∷ xs) rest k h = drop-suc i xs rest k h

drop-nil : (i : ℕ) (ks : List Bytes) → drop i ks ≡ [] → length ks ≤ i
drop-nil zero [] h = omega arith
drop-nil zero (x ∷ xs) h = cc
drop-nil (suc i) [] h = omega arith
drop-nil (suc i) (x ∷ xs) h = omega (arith, drop-nil i xs h)

module _ (ns : Bytes) (m : NsUpdates) (sorted : List Bytes) (last : ℕ) where
  abbrev pub at : ℕ → NsIterator
  at i = record { ns = ns; ns_updates = m; sorted_keys = sorted; next_index = i; last_index = last }

  -- The iterator at index `i`, before the keys `ks`.
  pub next-Yields :
      (n i : ℕ) (ks : List Bytes)
      → last - i ≡ n
      → last ≤ length sorted
      → drop i sorted ≡ ks
      → Present m (take n ks)
      → Yields next (at i) (entries ns m (take n ks))
  unfolding next
  next-Yields zero i ks e l d p =
      let stop : leb last i ≡ true = ground arith in unfold entries in (at i, rw stop)
  next-Yields (suc n) i [] e l d p = absurd (omega (arith, drop-nil i sorted d))
  next-Yields (suc n) i (k ∷ ks) e l d p =
      let (vv, found) = p.0 in
      let go_on : leb last i ≡ false = ground arith in
      let here : get_elem? sorted i ≡ some k = get_elem?-drop i sorted ks k d in
      subst (Yields next (at i)) (sym (entries-cons ns m k (take n ks) vv found)) (
        at (i + 1),
        rw (go_on, here, found),
        next-Yields n (i + 1) ks (omega arith) l (rw add-one (drop-suc i sorted ks k d)) p.1,
      )

-- What is found among the entries at some keys.
pub find-entries :
    (ns : Bytes) (m : NsUpdates) (k : Bytes) (ks : List Bytes)
    → find k (entries ns m ks) ≡ (if contains k ks then lookup k m else none)
unfolding find entries
find-entries ns m k [] = refl
find-entries ns m k (j ∷ ks) = ground (arith, find-entries ns m k ks, bytes_eq_iff j k)

pub contains-between :
    (p q : Bytes → Bool) (k : Bytes) (ks : List Bytes)
    → contains k (between p q ks) ≡ ((not (p k) && q k) && contains k ks)
unfolding between
contains-between p q k [] = ground arith
contains-between p q k (j ∷ ks) = ground (arith, contains-between p q k ks, bytes_eq_iff j k)

contains-insert_key :
    (k j : Bytes) (ks : List Bytes)
    → contains k (insert_key j ks) ≡ (if bytes_eq j k then true else contains k ks)
unfolding insert_key
contains-insert_key k j [] = refl
contains-insert_key k j (x ∷ xs) = ground (arith, contains-insert_key k j xs)

pub contains-get_sorted_keys :
    (k : Bytes) (ks : List Bytes) → contains k (get_sorted_keys ks) ≡ contains k ks
unfolding get_sorted_keys
contains-get_sorted_keys k [] = refl
contains-get_sorted_keys k (j ∷ ks) =
    ground (arith, contains-insert_key k j (get_sorted_keys ks), contains-get_sorted_keys k ks)

pub Present-contains :
    (m : NsUpdates) (ks : List Bytes)
    → ((k : Bytes) → contains k ks ≡ true → contains k (keys m) ≡ true)
    → Present m ks
Present-contains m [] h = tt
Present-contains m (k ∷ ks) h = (
  lookup-keys-some k m (h k (rw ((bytes_eq_iff k k).1 refl))),
  Present-contains m ks (λ j c. h j (ground (arith, c))),
)

pub kv_keys-entries :
    (ns : Bytes) (m : NsUpdates) (ks : List Bytes) → Present m ks → kv_keys (entries ns m ks) ≡ ks
kv_keys-entries ns m [] p = unfold entries in refl
kv_keys-entries ns m (k ∷ ks) p =
    rw (entries-cons ns m k ks (p.0).0 (p.0).1) (ap (◌∷◌ k) (kv_keys-entries ns m ks p.1))

pub entries-in_ns :
    (ns : Bytes) (m : NsUpdates) (ks : List Bytes)
    → Present m ks
    → All (λ kv. kv.namespace ≡ ns) (entries ns m ks)
entries-in_ns ns m [] p = unfold entries in tt
entries-in_ns ns m (k ∷ ks) p =
    rw (entries-cons ns m k ks (p.0).0 (p.0).1) (refl, entries-in_ns ns m ks p.1)

-- The keys that pass the tests of the range iterator.
