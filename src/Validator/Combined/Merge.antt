-- ===== src/Validator/Combined/Merge.antt =====
-- The merge of two ascending lists in which the second one wins and a nil value deletes: what the
-- combined iterator is to deliver.
use mathlib.Core.Path.{subst}
use fabric.Prelude.{
  ℕ, zero, suc, ◌+◌, ◌≤◌, ◌≡◌, refl, Option, none, some, Ordering, List, [], ◌∷◌, arith, length,
  All,
}
use fabric.Prelude.Bytes.{
  Bytes, Before, bytes_eq_iff, compare_bytes, compare_bytes_eq, compare_bytes_swap, Before-trans,
  Before-ne,
}
use fabric.StateDb.{VersionedValue, VersionedKv}
use fabric.StateDb.Scan.{find, kv_keys}
use fabric.StateDb.SortedKeys.{Ascending}

-- An item is put in front unless it is a deletion.
abbrev pub live : VersionedKv → List VersionedKv → List VersionedKv
live kv rest = elim kv.value [ none ↦ rest | some b ↦ kv ∷ rest ]

-- `n` bounds the number of items.
unfoldable pub merge : ℕ → List VersionedKv → List VersionedKv → List VersionedKv
merge zero dl ul = []
merge (suc n) [] [] = []
merge (suc n) (d ∷ dl) [] = live d (merge n dl [])
merge (suc n) [] (u ∷ ul) = live u (merge n [] ul)
merge (suc n) (d ∷ dl) (u ∷ ul) = elim (compare_bytes d.key u.key) [
  | Ordering.lt ↦ live d (merge n dl (u ∷ ul))
  | Ordering.eq ↦ live u (merge n dl ul)
  | Ordering.gt ↦ live u (merge n (d ∷ dl) ul)
]

-- A deleted key shows no value.
abbrev pub visible : Option VersionedValue → Option VersionedValue
visible none = none
visible (some vv) = elim vv.value [ none ↦ none | some b ↦ some vv ]

-- The update of a key, if there is one, hides what the database has.
abbrev pub latest : Option VersionedValue → Option VersionedValue → Option VersionedValue
latest none in_db = in_db
latest (some vv) in_db = some vv

live-All :
    (P : Bytes → Type 0) (kv : VersionedKv) (l : List VersionedKv)
    → P kv.key
    → All P (kv_keys l)
    → All P (kv_keys (live kv l))
live-All P kv l p h =
    elim kv.value as (λ v. All P (kv_keys (elim v [ none ↦ l | some b ↦ kv ∷ l ]))) [
      | none ↦ h
      | some b ↦ (p, h)
    ]

live-Ascending :
    (kv : VersionedKv) (l : List VersionedKv)
    → All (Before kv.key) (kv_keys l)
    → Ascending (kv_keys l)
    → Ascending (kv_keys (live kv l))
live-Ascending kv l b h =
    elim kv.value as (λ v. Ascending (kv_keys (elim v [ none ↦ l | some b ↦ kv ∷ l ]))) [
      | none ↦ h
      | some v ↦ (b, h)
    ]

pub merge-All :
    (P : Bytes → Type 0) (n : ℕ) (dl ul : List VersionedKv)
    → All P (kv_keys dl)
    → All P (kv_keys ul)
    → All P (kv_keys (merge n dl ul))
unfolding merge
merge-All P zero dl ul hd hu = tt
merge-All P (suc n) [] [] hd hu = tt
merge-All P (suc n) (d ∷ dl) [] hd hu = live-All P d _ hd.0 (merge-All P n dl [] hd.1 tt)
merge-All P (suc n) [] (u ∷ ul) hd hu = live-All P u _ hu.0 (merge-All P n [] ul tt hu.1)
merge-All P (suc n) (d ∷ dl) (u ∷ ul) hd hu =
    elim (compare_bytes d.key u.key)
      as (λ o. All P (
        kv_keys (elim o [
          | Ordering.lt ↦ live d (merge n dl (u ∷ ul))
          | Ordering.eq ↦ live u (merge n dl ul)
          | Ordering.gt ↦ live u (merge n (d ∷ dl) ul)
        ]))) [
          | Ordering.lt ↦ live-All P d _ hd.0 (merge-All P n dl (u ∷ ul) hd.1 hu)
          | Ordering.eq ↦ live-All P u _ hu.0 (merge-All P n dl ul hd.1 hu.1)
          | Ordering.gt ↦ live-All P u _ hu.0 (merge-All P n (d ∷ dl) ul hd hu.1)
        ]

live-in_ns :
    (ns : Bytes) (kv : VersionedKv) (l : List VersionedKv)
    → kv.namespace ≡ ns
    → All (λ x. x.namespace ≡ ns) l
    → All (λ x. x.namespace ≡ ns) (live kv l)
live-in_ns ns kv l p h =
    elim kv.value as (λ v. All (λ x. x.namespace ≡ ns) (elim v [ none ↦ l | some b ↦ kv ∷ l ])) [
      | none ↦ h
      | some b ↦ (p, h)
    ]

pub merge-in_ns :
    (ns : Bytes) (n : ℕ) (dl ul : List VersionedKv)
    → All (λ x. x.namespace ≡ ns) dl
    → All (λ x. x.namespace ≡ ns) ul
    → All (λ x. x.namespace ≡ ns) (merge n dl ul)
unfolding merge
merge-in_ns ns zero dl ul hd hu = tt
merge-in_ns ns (suc n) [] [] hd hu = tt
merge-in_ns ns (suc n) (d ∷ dl) [] hd hu = live-in_ns ns d _ hd.0 (merge-in_ns ns n dl [] hd.1 tt)
merge-in_ns ns (suc n) [] (u ∷ ul) hd hu = live-in_ns ns u _ hu.0 (merge-in_ns ns n [] ul tt hu.1)
merge-in_ns ns (suc n) (d ∷ dl) (u ∷ ul) hd hu =
    elim (compare_bytes d.key u.key)
      as (λ o.
        All (λ x. x.namespace ≡ ns)
          (elim o [
            | Ordering.lt ↦ live d (merge n dl (u ∷ ul))
            | Ordering.eq ↦ live u (merge n dl ul)
            | Ordering.gt ↦ live u (merge n (d ∷ dl) ul)
          ])) [
            | Ordering.lt ↦ live-in_ns ns d _ hd.0 (merge-in_ns ns n dl (u ∷ ul) hd.1 hu)
            | Ordering.eq ↦ live-in_ns ns u _ hu.0 (merge-in_ns ns n dl ul hd.1 hu.1)
            | Ordering.gt ↦ live-in_ns ns u _ hu.0 (merge-in_ns ns n (d ∷ dl) ul hd hu.1)
          ]

All-Before :
    (a b : Bytes) (l : List VersionedKv)
    → Before a b
    → All (Before b) (kv_keys l)
    → All (Before a) (kv_keys l)
All-Before a b [] h p = tt
All-Before a b (kv ∷ l) h p = (Before-trans a b kv.key h p.0, All-Before a b l h p.1)

-- Keys behind a later one are not found.
pub find-Before : (k : Bytes) (l : List VersionedKv) → All (Before k) (kv_keys l) → find k l ≡ none
unfolding find
find-Before k [] h = refl
find-Before k (kv ∷ l) h =
    ground (arith, find-Before k l h.1, bytes_eq_iff kv.key k, Before-ne k kv.key h.0)

find_at :
    (j k : Bytes) (l : List VersionedKv) → j ≡ k → All (Before j) (kv_keys l) → find k l ≡ none
find_at j k l e h = find-Before k l (subst (λ x. All (Before x) (kv_keys l)) e h)

pub merge-Ascending :
    (n : ℕ) (dl ul : List VersionedKv)
    → Ascending (kv_keys dl)
    → Ascending (kv_keys ul)
    → Ascending (kv_keys (merge n dl ul))
unfolding merge
merge-Ascending zero dl ul hd hu = tt
merge-Ascending (suc n) [] [] hd hu = tt
merge-Ascending (suc n) (d ∷ dl) [] hd hu =
    live-Ascending d _ (merge-All (Before d.key) n dl [] hd.0 tt) (merge-Ascending n dl [] hd.1 tt)
merge-Ascending (suc n) [] (u ∷ ul) hd hu =
    live-Ascending u _ (merge-All (Before u.key) n [] ul tt hu.0) (merge-Ascending n [] ul tt hu.1)
merge-Ascending (suc n) (d ∷ dl) (u ∷ ul) hd hu =
    go (compare_bytes d.key u.key) refl (merge-Ascending n dl (u ∷ ul) hd.1 hu)
      (merge-Ascending n dl ul hd.1 hu.1) (merge-Ascending n (d ∷ dl) ul hd hu.1)
  where
    go :
        (o : Ordering)
        → compare_bytes d.key u.key ≡ o
        → Ascending (kv_keys (merge n dl (u ∷ ul)))
        → Ascending (kv_keys (merge n dl ul))
        → Ascending (kv_keys (merge n (d ∷ dl) ul))
        → Ascending (kv_keys (merge (suc n) (d ∷ dl) (u ∷ ul)))
    go Ordering.lt e ih _ _ =
        rw (e, merge)
          (live-Ascending d _
            (merge-All (Before d.key) n dl (u ∷ ul) hd.0 (e, All-Before d.key u.key ul e hu.0)) ih)
    go Ordering.eq e _ ih _ =
        let same : d.key ≡ u.key = compare_bytes_eq d.key u.key e in
        rw (e, merge)
          (live-Ascending u _
            (merge-All (Before u.key) n dl ul (subst (λ k. All (Before k) (kv_keys dl)) same hd.0)
              hu.0)
            ih)
    go Ordering.gt e _ _ ih =
        let l : Before u.key d.key = (compare_bytes_swap d.key u.key).0 e in
        rw (e, merge)
          (live-Ascending u _
            (merge-All (Before u.key) n (d ∷ dl) ul (l, All-Before u.key d.key dl l hd.0) hu.0) ih)

-- What is found in the merge is the latest value, if it is not a deletion.
pub find-merge :
    (k : Bytes) (n : ℕ) (dl ul : List VersionedKv)
    → length dl + length ul ≤ n
    → Ascending (kv_keys dl)
    → Ascending (kv_keys ul)
    → find k (merge n dl ul) ≡ visible (latest (find k ul) (find k dl))
unfolding merge find
find-merge k zero [] [] l hd hu = refl
find-merge k zero (d ∷ dl) ul l hd hu = absurd (omega arith)
find-merge k zero [] (u ∷ ul) l hd hu = absurd (omega arith)
find-merge k (suc n) [] [] l hd hu = refl
find-merge k (suc n) (d ∷ dl) [] l hd hu = ground (
  arith,
  find-merge k n dl [] (omega arith) hd.1 tt,
  bytes_eq_iff d.key k,
  λ (e : d.key ≡ k). find_at d.key k dl e hd.0,
)
find-merge k (suc n) [] (u ∷ ul) l hd hu = ground (
  arith,
  find-merge k n [] ul (omega arith) tt hu.1,
  bytes_eq_iff u.key k,
  λ (e : u.key ≡ k). find_at u.key k ul e hu.0,
)
find-merge k (suc n) (d ∷ dl) (u ∷ ul) l hd hu = ground (
  arith,
  find-merge k n dl (u ∷ ul) (omega arith) hd.1 hu,
  find-merge k n dl ul (omega arith) hd.1 hu.1,
  find-merge k n (d ∷ dl) ul (omega arith) hd hu.1,
  bytes_eq_iff u.key k,
  bytes_eq_iff d.key k,
  compare_bytes_eq d.key u.key,
  λ (e : d.key ≡ k). find_at d.key k dl e hd.0,
  λ (e : u.key ≡ k). find_at u.key k ul e hu.0,
  λ (o : Before d.key u.key) (e : d.key ≡ k).
      find_at d.key k (u ∷ ul) e (o, All-Before d.key u.key ul o hu.0),
  λ (o : compare_bytes d.key u.key ≡ Ordering.gt) (e : u.key ≡ k). find_at u.key k (d ∷ dl) e (
    (compare_bytes_swap d.key u.key).0 o,
    All-Before u.key d.key dl ((compare_bytes_swap d.key u.key).0 o) hd.0,
  ),
)
