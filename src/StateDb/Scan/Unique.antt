-- ===== src/StateDb/Scan/Unique.antt =====
-- A scan is determined by what it is to hold.
use mathlib.Core.Path.{subst, ap₂}
use fabric.Prelude.{
  ◌≡◌, refl, sym, ap, ◌∙◌, Option, none, some, Bool, List, [], ◌∷◌, arith, All, Ordering,
  if◌then◌else◌,
}
use fabric.Prelude.Bytes.{
  Bytes, Before, bytes_eq, bytes_eq_iff, compare_bytes, compare_bytes_eq, compare_bytes_swap,
  Before-ne, Before-trans,
}
use fabric.StateDb.{VersionedValue, VersionedKv}
use fabric.StateDb.Scan.{value_of, find, kv_keys, IsScan}
use fabric.StateDb.SortedKeys.{Ascending}

pub find_self :
    (kv : VersionedKv) (l : List VersionedKv) → find kv.key (kv ∷ l) ≡ some (value_of kv)
unfolding find
find_self kv l = ground (arith, bytes_eq_iff kv.key kv.key)

pub find_later : (k : Bytes) (l : List VersionedKv) → All (Before k) (kv_keys l) → find k l ≡ none
unfolding find
find_later k [] h = refl
find_later k (kv ∷ l) h =
    ground (arith, find_later k l h.1, bytes_eq_iff kv.key k, Before-ne k kv.key h.0)

pub Before-All :
    (a b : Bytes) (l : List VersionedKv)
    → Before a b
    → All (Before b) (kv_keys l)
    → All (Before a) (kv_keys l)
Before-All a b [] h p = tt
Before-All a b (kv ∷ l) h p = (Before-trans a b kv.key h p.0, Before-All a b l h p.1)

kv_eq :
    (a b : VersionedKv) (ns : Bytes)
    → a.namespace ≡ ns
    → b.namespace ≡ ns
    → a.key ≡ b.key
    → value_of a ≡ value_of b
    → a ≡ b
kv_eq a b ns p q k v = ground arith

find_tail :
    (k : Bytes) (kv : VersionedKv) (l : List VersionedKv)
    → All (Before kv.key) (kv_keys l)
    → find k l ≡ (if bytes_eq kv.key k then none else find k (kv ∷ l))
unfolding find
find_tail k kv l h = ground (
  arith,
  bytes_eq_iff kv.key k,
  λ (e : kv.key ≡ k). find_later k l (subst (λ x. All (Before x) (kv_keys l)) e h),
)

-- Two ascending lists of one namespace in which the same is found at every key are equal.
pub scan_unique :
    (ns : Bytes) (l m : List VersionedKv)
    → Ascending (kv_keys l)
    → Ascending (kv_keys m)
    → All (λ kv. kv.namespace ≡ ns) l
    → All (λ kv. kv.namespace ≡ ns) m
    → ((k : Bytes) → find k l ≡ find k m)
    → l ≡ m
scan_unique ns [] [] hl hm nl nm e = refl
scan_unique ns [] (y ∷ m) hl hm nl nm e = unfold find in cc (e y.key, find_self y m)
scan_unique ns (x ∷ l) [] hl hm nl nm e = unfold find in cc (e x.key, find_self x l)
scan_unique ns (x ∷ l) (y ∷ m) hl hm nl nm e =
    go (compare_bytes x.key y.key) refl (λ q. scan_unique ns l m hl.1 hm.1 nl.1 nm.1 q)
  where
    go :
        (o : Ordering)
        → compare_bytes x.key y.key ≡ o
        → (((k : Bytes) → find k l ≡ find k m) → l ≡ m)
        → x ∷ l ≡ y ∷ m
    go Ordering.lt b ih =
        cc (e x.key, find_self x l, find_later x.key (y ∷ m) (b, Before-All x.key y.key m b hm.0))
    go Ordering.gt b ih =
        let b' : Before y.key x.key = (compare_bytes_swap x.key y.key).0 b in
        cc (e y.key, find_self y m, find_later y.key (x ∷ l) (b', Before-All y.key x.key l b' hl.0))
    go Ordering.eq b ih =
        let k : x.key ≡ y.key = compare_bytes_eq x.key y.key b in
        let v : value_of x ≡ value_of y =
          cc (find_self x l, e x.key, ap (λ z. find z (y ∷ m)) k, find_self y m) in
        ap₂ (◌∷◌) (kv_eq x y ns nl.0 nm.0 k v)
          (ih (λ j. ground (arith, find_tail j x l hl.0, find_tail j y m hm.0, e j, k)))

pub IsScan-unique :
    (ns : Bytes) (test : Bytes → Bool) (state : Bytes → Option VersionedValue)
    (l m : List VersionedKv)
    → IsScan ns test state l
    → IsScan ns test state m
    → l ≡ m
IsScan-unique ns test state l m a b =
    scan_unique ns l m a.ascending b.ascending a.in_ns b.in_ns (λ k. a.exact k ∙ sym (b.exact k))
