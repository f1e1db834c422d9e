-- ===== src/StateDb/SortedKeys.antt =====
-- `GetSortedKeys` of core/ledger/util/util.go and `sort.SearchStrings`, over the order of Go strings.
use mathlib.Core.Bool.{false≢true}
use fabric.Prelude.{
  ℕ, suc, ◌≤◌, ◌≡◌, refl, ◌≢◌, Ordering, Bool, true, false, List, [], ◌∷◌, arith, length, All, ◌≤◌,
  Bool-cases, inl, inr, take, drop, ◌-◌, not, ◌&&◌, ap, sym, ◌∙◌, if◌then◌else◌,
}
use fabric.Prelude.Bytes.{
  Bytes, Before, compare_bytes, compare_bytes_eq, compare_bytes_swap, Before-trans,
}

-- `sort.Strings`, as an insertion sort.
unfoldable pub insert_key : Bytes → List Bytes → List Bytes
insert_key k [] = k ∷ []
insert_key k (x ∷ xs) = elim (compare_bytes x k) [
  | Ordering.lt ↦ x ∷ insert_key k xs
  | _ ↦ k ∷ x ∷ xs
]

unfoldable pub get_sorted_keys : List Bytes → List Bytes
unfolding insert_key
get_sorted_keys [] = []
get_sorted_keys (k ∷ ks) = insert_key k (get_sorted_keys ks)

-- The first index of a sorted list whose key is not before `x`; the length if there is none.
unfoldable pub search_strings : List Bytes → Bytes → ℕ
search_strings [] x = 0
search_strings (k ∷ ks) x = elim (compare_bytes k x) [
  | Ordering.lt ↦ suc (search_strings ks x)
  | _ ↦ 0
]

abbrev pub Ascending : List Bytes → Type 0
Ascending [] = Unit
Ascending (k ∷ ks) = All (Before k) ks × Ascending ks

abbrev pub Distinct : List Bytes → Type 0
Distinct [] = Unit
Distinct (k ∷ ks) = All (λ x. x ≢ k) ks × Distinct ks

All-map :
    {P Q : Bytes → Type 0} (f : (k : Bytes) → P k → Q k) (ks : List Bytes) → All P ks → All Q ks
All-map f [] h = tt
All-map f (k ∷ ks) h = (f k h.0, All-map f ks h.1)

insert_key-All :
    (P : Bytes → Type 0) (k : Bytes) (ks : List Bytes) → P k → All P ks → All P (insert_key k ks)
unfolding insert_key
insert_key-All P k [] p h = (p, h)
insert_key-All P k (x ∷ xs) p h =
    elim (compare_bytes x k)
      as (λ o. All P (elim o [ Ordering.lt ↦ x ∷ insert_key k xs | _ ↦ k ∷ x ∷ xs ])) [
        | Ordering.lt ↦ (h.0, insert_key-All P k xs p h.1)
        | Ordering.eq ↦ (p, h)
        | Ordering.gt ↦ (p, h)
      ]

get_sorted_keys-All : (P : Bytes → Type 0) (ks : List Bytes) → All P ks → All P (get_sorted_keys ks)
unfolding get_sorted_keys
get_sorted_keys-All P [] h = h
get_sorted_keys-All P (k ∷ ks) h =
    insert_key-All P k (get_sorted_keys ks) h.0 (get_sorted_keys-All P ks h.1)

Before-All : (a b : Bytes) (ks : List Bytes) → Before a b → All (Before b) ks → All (Before a) ks
Before-All a b ks h = All-map (λ k. Before-trans a b k h) ks

insert_key-Ascending :
    (k : Bytes) (ks : List Bytes) → All (λ x. x ≢ k) ks → Ascending ks → Ascending (insert_key k ks)
unfolding insert_key
insert_key-Ascending k [] n h = (tt, tt)
insert_key-Ascending k (x ∷ xs) n h =
    go (compare_bytes x k) refl (insert_key-Ascending k xs n.1 h.1)
  where
    go :
        (o : Ordering)
        → compare_bytes x k ≡ o
        → Ascending (insert_key k xs)
        → Ascending (insert_key k (x ∷ xs))
    go Ordering.lt e ih = rw (e, insert_key) (insert_key-All (Before x) k xs e h.0, ih)
    go Ordering.eq e ih = absurd (n.0 (compare_bytes_eq x k e))
    go Ordering.gt e ih =
        let l : Before k x = (compare_bytes_swap x k).0 e in
        rw (e, insert_key) ((l, Before-All k x xs l h.0), h)

-- The keys of a map, which differ, come out strictly ascending.
pub get_sorted_keys-Ascending : (ks : List Bytes) → Distinct ks → Ascending (get_sorted_keys ks)
unfolding get_sorted_keys
get_sorted_keys-Ascending [] h = tt
get_sorted_keys-Ascending (k ∷ ks) h =
    insert_key-Ascending k (get_sorted_keys ks) (get_sorted_keys-All (λ x. x ≢ k) ks h.0)
      (get_sorted_keys-Ascending ks h.1)

-- How many keys at the front pass a test.
unfoldable pub lead : (Bytes → Bool) → List Bytes → ℕ
lead p [] = 0
lead p (k ∷ ks) = if p k then suc (lead p ks) else 0

abbrev pub is_before : Bytes → Bytes → Bool
is_before x k = elim (compare_bytes k x) [ Ordering.lt ↦ true | _ ↦ false ]

pub search_strings-lead :
    (ks : List Bytes) (x : Bytes) → search_strings ks x ≡ lead (is_before x) ks
unfolding search_strings lead
search_strings-lead [] x = refl
search_strings-lead (k ∷ ks) x = ground (arith, search_strings-lead ks x)

pub length-lead : (ks : List Bytes) → length ks ≡ lead (λ _. true) ks
unfolding lead
length-lead [] = refl
length-lead (k ∷ ks) = ap suc (length-lead ks)

-- A test that, once it fails on a key, fails on every later one.
abbrev pub IsDownward : (Bytes → Bool) → Type 0
IsDownward p = (a b : Bytes) → Before a b → p a ≡ false → p b ≡ false

pub is_before-IsDownward : (x : Bytes) → IsDownward (is_before x)
is_before-IsDownward x a b h e = go (compare_bytes b x) refl
  where
    go : (o : Ordering) → compare_bytes b x ≡ o → is_before x b ≡ false
    go Ordering.lt q =
        let r : compare_bytes a x ≡ Ordering.lt = Before-trans a b x h q in
        absurd (false≢true (sym e ∙ rw (r, is_before)))
    go Ordering.eq q = rw (q, is_before)
    go Ordering.gt q = rw (q, is_before)

unfoldable pub between : (Bytes → Bool) → (Bytes → Bool) → List Bytes → List Bytes
between p q [] = []
between p q (k ∷ ks) = let rest = between p q ks in if not (p k) && q k then k ∷ rest else rest

fails_after :
    (p : Bytes → Bool) (k : Bytes) (ks : List Bytes)
    → IsDownward p
    → p k ≡ false
    → All (Before k) ks
    → All (λ x. p x ≡ false) ks
fails_after p k ks d e = All-map (λ x l. d k x l e) ks

lead_none : (p : Bytes → Bool) (ks : List Bytes) → All (λ x. p x ≡ false) ks → lead p ks ≡ 0
unfolding lead
lead_none p [] h = refl
lead_none p (k ∷ ks) h = rw (h.0)

between_none :
    (p q : Bytes → Bool) (ks : List Bytes) → All (λ x. q x ≡ false) ks → between p q ks ≡ []
unfolding between
between_none p q [] h = refl
between_none p q (k ∷ ks) h = ground (arith, h.0, between_none p q ks h.1)

-- In an ascending list the keys between two indices found by search are those between the tests.
pub slice-between :
    (p q : Bytes → Bool) (ks : List Bytes)
    → IsDownward p
    → IsDownward q
    → Ascending ks
    → take (lead q ks - lead p ks) (drop (lead p ks) ks) ≡ between p q ks
unfolding lead between
slice-between p q [] dp dq h = ground arith
slice-between p q (k ∷ ks) dp dq h = ground (
  arith,
  slice-between p q ks dp dq h.1,
  λ (e : p k ≡ false). lead_none p ks (fails_after p k ks dp e h.0),
  λ (e : q k ≡ false). between_none p q ks (fails_after q k ks dq e h.0),
)

between-All :
    (P : Bytes → Type 0) (p q : Bytes → Bool) (ks : List Bytes) → All P ks → All P (between p q ks)
unfolding between
between-All P p q [] h = tt
between-All P p q (k ∷ ks) h = elim (Bool-cases (not (p k) && q k)) [
  | inl e ↦ rw e (h.0, between-All P p q ks h.1)
  | inr e ↦ rw e (between-All P p q ks h.1)
]

pub between-Ascending :
    (p q : Bytes → Bool) (ks : List Bytes) → Ascending ks → Ascending (between p q ks)
unfolding between
between-Ascending p q [] h = tt
between-Ascending p q (k ∷ ks) h = elim (Bool-cases (not (p k) && q k)) [
  | inl e ↦ rw e (between-All (Before k) p q ks h.0, between-Ascending p q ks h.1)
  | inr e ↦ rw e (between-Ascending p q ks h.1)
]

pub lead-le-length : (p : Bytes → Bool) (ks : List Bytes) → lead p ks ≤ length ks
unfolding lead
lead-le-length p [] = omega arith
lead-le-length p (k ∷ ks) = ground (arith, lead-le-length p ks)

-- No key is before the empty one.
pub lead-nil : (ks : List Bytes) → lead (is_before []) ks ≡ 0
unfolding lead compare_bytes
lead-nil [] = refl
lead-nil ([] ∷ ks) = refl
lead-nil ((b ∷ bs) ∷ ks) = refl
