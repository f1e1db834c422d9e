-- ===== src/LevelDb/Store.antt =====
-- What github.com/syndtr/goleveldb is to the code: a map from keys to values, read one key at a time
-- or over a range of keys in their order.
use fabric.Prelude.{◌≡◌, Option, none, some, Bool, ◌&&◌, not, List, [], ◌∷◌, if◌then◌else◌}
use fabric.Prelude.Bytes.{Bytes, bytes_eq, bytes_Eq}
use fabric.Prelude.Assoc.{Assoc, lookup}
use fabric.Prelude.Outcome.{Outcome, ok}
use fabric.StateDb.SortedKeys.{Ascending, is_before}

-- `next` moves an iterator on: the entry that it is then at, if there is one. An end that is nil
-- leaves the range open.
pub record LevelStore : Type 1 where
  pub Itr : Type 0
  pub get : Bytes → Outcome (Option Bytes)
  pub get_iterator : Bytes → Option Bytes → Itr
  pub next : Itr → Outcome (Option (Bytes × Bytes) × Itr)

abbrev pub Contents : Type 0
Contents = Bytes → Option Bytes

-- The batch of leveldbhelper: `none` deletes.
abbrev pub KvBatch : Type 0
KvBatch = Assoc Bytes (Option Bytes)

-- What a lookup finds, if it finds something, in place of `old`.
abbrev written_value : Option Bytes → Option (Option Bytes) → Option Bytes
written_value old none = old
written_value old (some value) = value

-- The contents after a batch is written.
unfoldable pub written : Contents → KvBatch → Contents
written contents kvs key = written_value (contents key) (lookup key kvs)

abbrev pub entry_keys : List (Bytes × Bytes) → List Bytes
entry_keys [] = []
entry_keys ((k, v) ∷ l) = k ∷ entry_keys l

unfoldable pub find_entry : Bytes → List (Bytes × Bytes) → Option Bytes
find_entry k [] = none
find_entry k ((j, v) ∷ l) = if bytes_eq j k then some v else find_entry k l

-- Both ends are keys: the start is in the range, the end is not.
abbrev pub between : Bytes → Bytes → Bytes → Bool
between start_key end_key k = not (is_before start_key k) && is_before end_key k

-- The range without an end.
abbrev pub onward : Bytes → Bytes → Bool
onward start_key k = not (is_before start_key k)

-- `l` holds the contents at the keys that pass the test, in ascending order.
pub record IsRange (contents : Contents) (test : Bytes → Bool) (l : List (Bytes × Bytes))
    : Type 0 where
  pub ascending : Ascending (entry_keys l)
  pub exact : (k : Bytes) → find_entry k l ≡ (if test k then contents k else none)

-- An iterator in state `s` gives the entries of the list one by one, and then none.
abbrev pub Gives {ℓ} :
    {S : Type ℓ} → (S → Outcome (Option (Bytes × Bytes) × S)) → S → List (Bytes × Bytes) → Type ℓ
Gives {S = S} next s [] = (s' : S) × (next s ≡ ok (none, s'))
Gives {S = S} next s (e ∷ l) = (s' : S) × (next s ≡ ok (some e, s')) × Gives next s' l

-- The store answers, with these contents: every key, every range between two keys, and every range
-- that a nil end leaves open.
pub record Holds (db : LevelStore) (contents : Contents) : Type 0 where
  pub get_ok : (key : Bytes) → db.get key ≡ ok (contents key)
  pub range_ok :
      (start_key end_key : Bytes)
      → (l : List (Bytes × Bytes)) × Gives db.next (db.get_iterator start_key (some end_key)) l
        × IsRange contents (between start_key end_key) l
  pub open_ok :
      (start_key : Bytes)
      → (l : List (Bytes × Bytes)) × Gives db.next (db.get_iterator start_key none) l
        × IsRange contents (onward start_key) l
