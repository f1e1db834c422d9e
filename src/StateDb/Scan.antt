-- ===== src/StateDb/Scan.antt =====
-- What an iterator over a range of keys is to yield: the contract of `GetStateRangeScanIterator`
-- and `GetRangeScanIterator`, and the runs of an iterator.
pub mod Append
pub mod Unique
pub mod Prefix
use fabric.Prelude.{
  ℕ, ◌≡◌, Option, none, some, Bool, true, not, ◌&&◌, List, [], ◌∷◌, All, if◌then◌else◌,
}
use fabric.Prelude.Bytes.{Bytes, bytes_eq}
use fabric.Prelude.Outcome.{Outcome, ok}
use fabric.StateDb.{VersionedValue, VersionedKv}
use fabric.StateDb.SortedKeys.{Ascending, is_before}

abbrev pub value_of : VersionedKv → VersionedValue
value_of kv = record { value = kv.value; version = kv.version }

unfoldable pub find : Bytes → List VersionedKv → Option VersionedValue
find k [] = none
find k (kv ∷ l) = if bytes_eq kv.key k then some (value_of kv) else find k l

abbrev pub kv_keys : List VersionedKv → List Bytes
kv_keys [] = []
kv_keys (kv ∷ l) = kv.key ∷ kv_keys l

-- An empty end key leaves the range open.
abbrev pub is_below : Bytes → Bytes → Bool
is_below [] k = true
is_below (b ∷ bs) k = is_before (b ∷ bs) k

abbrev pub in_range : Bytes → Bytes → Bytes → Bool
in_range start_key end_key k = not (is_before start_key k) && is_below end_key k

-- `l` holds, in ascending order, what `state` has at the keys that pass `test`.
pub record IsScan (ns : Bytes) (test : Bytes → Bool) (state : Bytes → Option VersionedValue)
    (l : List VersionedKv) : Type 0 where
  pub ascending : Ascending (kv_keys l)
  pub in_ns : All (λ kv. kv.namespace ≡ ns) l
  pub exact : (k : Bytes) → find k l ≡ (if test k then state k else none)

-- An iterator in state `s` yields the items of the list one by one, and then nil.
abbrev pub Yields {ℓ} :
    {S : Type ℓ} → (S → Outcome (Option VersionedKv × S)) → S → List VersionedKv → Type ℓ
Yields {S = S} next s [] = (s' : S) × (next s ≡ ok (none, s'))
Yields {S = S} next s (kv ∷ l) = (s' : S) × (next s ≡ ok (some kv, s')) × Yields next s' l
