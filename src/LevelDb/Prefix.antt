-- ===== src/LevelDb/Prefix.antt =====
-- The part of a store whose keys begin with a name and a zero byte, as a store of its own: what both
-- the handles of leveldbhelper and the namespaces of stateleveldb make of LevelDB.
use mathlib.Core.Bool.{false≢true}
use mathlib.Core.Path.{subst}
use fabric.Prelude.{
  ℕ, zero, suc, ◌≡◌, refl, sym, ap, ◌∙◌, Option, none, some, Bool, true, false, List, [], ◌∷◌, ◌++◌,
  arith, if◌then◌else◌, ◌&&◌, All,
}
use fabric.Prelude.Bytes.{
  Bytes, Before, bytes_eq, bytes_eq_iff, compare_bytes, compare_bytes-append_left,
}
use fabric.StateDb.SortedKeys.{Ascending, is_before}
use fabric.StateDb.VersionedDb.{IsName}
use fabric.LevelDb.Store.{Contents, entry_keys, find_entry, between, IsRange}

-- `bytes.SplitN(key, sep, 2)` with the separator 0: what stands before and behind the first zero byte.
unfoldable pub split_n : Bytes → Option (Bytes × Bytes)
split_n [] = none
split_n (zero ∷ k) = some ([], k)
split_n (suc b ∷ k) = elim (split_n k) [ none ↦ none | some (x, y) ↦ some (suc b ∷ x, y) ]

-- The key of a name and a key.
abbrev pub join_key : Bytes → Bytes → Bytes
join_key name key = name ++ 0 ∷ key

pub split_n-join_key :
    (name key : Bytes) → IsName name → split_n (join_key name key) ≡ some (name, key)
unfolding split_n
split_n-join_key [] key h = refl
split_n-join_key (zero ∷ name) key h = absurd (omega (arith, h.0))
split_n-join_key (suc b ∷ name) key h = rw (split_n-join_key name key h.1) refl

abbrev pub prefixed : Contents → Bytes → Contents
prefixed contents name key = contents (join_key name key)

abbrev pub under : Bytes → List (Bytes × Bytes) → List (Bytes × Bytes)
under name [] = []
under name ((k, v) ∷ l) = (join_key name k, v) ∷ under name l

pub is_before-join :
    (name a b : Bytes) → is_before (join_key name a) (join_key name b) ≡ is_before a b
unfolding compare_bytes
is_before-join [] a b = refl
is_before-join (c ∷ name) a b = ground (arith, is_before-join name a b)

pub between-join :
    (name s e k : Bytes)
    → between (join_key name s) (join_key name e) (join_key name k) ≡ between s e k
between-join name s e k = rw (is_before-join name s k, is_before-join name e k) refl

-- The end of the names's part of the store.
pub is_before-end : (name k : Bytes) → is_before (name ++ 1 ∷ []) (join_key name k) ≡ true
unfolding compare_bytes
is_before-end [] k = refl
is_before-end (c ∷ name) k = ground (arith, is_before-end name k)

-- The bounds of the name's part from above: what follows the name is not past the zero byte.
abbrev pub Ends : Bytes → Type 0
Ends t = (b : ℕ) (x : Bytes) → is_before t (suc b ∷ x) ≡ false

pub key-Ends : (e : Bytes) → Ends (0 ∷ e)
unfolding compare_bytes
key-Ends e b x = ground arith

pub last-Ends : Ends (1 ∷ [])
unfolding compare_bytes
last-Ends b [] = ground arith
last-Ends b (c ∷ x) = ground arith

-- A key between a key of the name and such a bound is one of the name's.
pub between-join_key :
    (name s t x : Bytes)
    → Ends t
    → between (join_key name s) (name ++ t) x ≡ true
    → (k : Bytes) × (x ≡ join_key name k)
unfolding compare_bytes
between-join_key [] s t [] ends h = cc
between-join_key [] s t (zero ∷ x) ends h = (x, refl)
between-join_key [] s t (suc b ∷ x) ends h = absurd (false≢true (ground (arith, h, ends b x)))
between-join_key (c ∷ name) s t [] ends h = cc
between-join_key (c ∷ name) s t (b ∷ x) ends h =
    let same : b ≡ c = ground (arith, h) in
    let (k, p) = between-join_key name s t x ends (ground (arith, h, same)) in
    (k, ground (arith, same, p))

bytes_eq-join : (name a b : Bytes) → bytes_eq (join_key name a) (join_key name b) ≡ bytes_eq a b
unfolding bytes_eq
bytes_eq-join [] a b = refl
bytes_eq-join (c ∷ name) a b = ground (arith, bytes_eq-join name a b)

find_entry-under :
    (name k : Bytes) (l : List (Bytes × Bytes))
    → find_entry (join_key name k) (under name l) ≡ find_entry k l
unfolding find_entry
find_entry-under name k [] = refl
find_entry-under name k ((j, v) ∷ l) = rw (bytes_eq-join name j k, find_entry-under name k l) refl

compare-join :
    (name a b : Bytes) → compare_bytes (join_key name a) (join_key name b) ≡ compare_bytes a b
unfolding compare_bytes
compare-join name a b = compare_bytes-append_left name (0 ∷ a) (0 ∷ b)

All-under :
    (name k : Bytes) (l : List (Bytes × Bytes))
    → All (Before (join_key name k)) (entry_keys (under name l))
    → All (Before k) (entry_keys l)
All-under name k [] h = tt
All-under name k ((j, v) ∷ l) h = (sym (compare-join name k j) ∙ h.0, All-under name k l h.1)

Ascending-under :
    (name : Bytes) (l : List (Bytes × Bytes))
    → Ascending (entry_keys (under name l))
    → Ascending (entry_keys l)
Ascending-under name [] h = tt
Ascending-under name ((j, v) ∷ l) h = (All-under name j l h.0, Ascending-under name l h.1)

-- Entries whose keys are all of the name are those of a list without it.
without_name :
    (name : Bytes) (test : Bytes → Bool) (l : List (Bytes × Bytes))
    → ((x : Bytes) → test x ≡ true → (k : Bytes) × (x ≡ join_key name k))
    → ((x : Bytes) → test x ≡ false → find_entry x l ≡ none)
    → (l' : List (Bytes × Bytes)) × (l ≡ under name l')
unfolding find_entry
without_name name test [] named missing = ([], refl)
without_name name test ((j, v) ∷ l) named missing =
    let (l', e) = without_name name test l named (λ x h. ground (arith, missing x h)) in
    let pass : test j ≡ true = ground (arith, missing j, bytes_eq_iff j j) in
    let (k, p) = named j pass in ((k, v) ∷ l', ground (arith, e, p))

-- A range inside the name's part, seen from the name.
pub prefixed-IsRange :
    (contents : Contents) (name : Bytes) (test part : Bytes → Bool) (l : List (Bytes × Bytes))
    → ((x : Bytes) → test x ≡ true → (k : Bytes) × (x ≡ join_key name k))
    → ((k : Bytes) → test (join_key name k) ≡ part k)
    → IsRange contents test l
    → (l' : List (Bytes × Bytes)) × (l ≡ under name l') × IsRange (prefixed contents name) part l'
prefixed-IsRange contents name test part l named same r =
    let (l', e) = without_name name test l named (λ x h. r.exact x ∙ rw h refl) in
    (
      l',
      e,
      record {
        ascending = Ascending-under name l' (subst (λ m. Ascending (entry_keys m)) e r.ascending);
        exact = λ k.
            sym (find_entry-under name k l')
            ∙ ap (find_entry (join_key name k)) (sym e)
            ∙ r.exact (join_key name k)
            ∙ ap (λ b. if b then contents (join_key name k) else none) (same k);
      },
    )

-- Keys of names without zero bytes are equal only if the names are.
pub join_key-eq :
    (ns ns' k k' : Bytes)
    → IsName ns
    → IsName ns'
    → bytes_eq (join_key ns k) (join_key ns' k') ≡ (bytes_eq ns ns' && bytes_eq k k')
unfolding bytes_eq
join_key-eq [] [] k k' n n' = ground arith
join_key-eq [] (c ∷ ns') k k' n n' = ground (arith, n'.0)
join_key-eq (c ∷ ns) [] k k' n n' = ground (arith, n.0)
join_key-eq (c ∷ ns) (c' ∷ ns') k k' n n' = ground (arith, join_key-eq ns ns' k k' n.1 n'.1)
