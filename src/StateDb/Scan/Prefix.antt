-- ===== src/StateDb/Scan/Prefix.antt =====
-- The front of a scan is the scan of a smaller range, up to and with its last key.
use mathlib.Core.Bool.{false≢true}
use mathlib.Core.Path.{subst}
use fabric.Prelude.{
  ◌≡◌, ◌≢◌, refl, sym, ap, ◌∙◌, Option, none, some, Bool, true, false, ◌||◌, List, [], ◌∷◌, ◌++◌,
  arith, All, Ordering, if◌then◌else◌, inl, inr, ◌⊎◌,
}
use fabric.Prelude.Bytes.{
  Bytes, Before, bytes_eq, bytes_eq_iff, compare_bytes, compare_bytes_eq, compare_bytes_swap,
  Before-ne, Before-trans,
}
use fabric.StateDb.{VersionedValue, VersionedKv}
use fabric.StateDb.SortedKeys.{Ascending, is_before}
use fabric.StateDb.Scan.{find, kv_keys, is_below, in_range, IsScan}
use fabric.StateDb.Scan.Append.{or_else, find-append, keys_pass}
use fabric.StateDb.Scan.Unique.{find_later, Before-All}

abbrev pub last_key : List VersionedKv → Bytes
last_key [] = []
last_key (kv ∷ []) = kv.key
last_key (kv ∷ kv' ∷ l) = last_key (kv' ∷ l)

pub last_key-snoc : (d : List VersionedKv) (kv : VersionedKv) → last_key (d ++ kv ∷ []) ≡ kv.key
last_key-snoc [] kv = refl
last_key-snoc (x ∷ []) kv = refl
last_key-snoc (x ∷ y ∷ d) kv = last_key-snoc (y ∷ d) kv

abbrev UpTo : Bytes → Bytes → Type 0
UpTo last k = (k ≡ last) ⊎ Before k last

last_key-All :
    (P : Bytes → Type 0) (d l : List VersionedKv)
    → d ≢ []
    → All P (kv_keys (d ++ l))
    → P (last_key d)
last_key-All P [] l n h = absurd (n refl)
last_key-All P (x ∷ []) l n h = h.0
last_key-All P (x ∷ y ∷ d) l n h = last_key-All P (y ∷ d) l (λ e. cc) h.1

-- Every key of the front is up to its last one.
front-UpTo :
    (d l : List VersionedKv) → Ascending (kv_keys (d ++ l)) → All (UpTo (last_key d)) (kv_keys d)
front-UpTo [] l a = tt
front-UpTo (x ∷ []) l a = (inl refl, tt)
front-UpTo (x ∷ y ∷ d) l a =
    let rest = front-UpTo (y ∷ d) l a.1 in
    (inr (last_key-All (Before x.key) (y ∷ d) l (λ e. cc) a.0), rest)

-- Every key behind the front is past the last one.
back-Before :
    (d l : List VersionedKv)
    → d ≢ []
    → Ascending (kv_keys (d ++ l))
    → All (Before (last_key d)) (kv_keys l)
back-Before [] l n a = absurd (n refl)
back-Before (x ∷ []) l n a = a.0
back-Before (x ∷ y ∷ d) l n a = back-Before (y ∷ d) l (λ e. cc) a.1

find_past :
    (last k : Bytes) (d : List VersionedKv)
    → All (UpTo last) (kv_keys d)
    → Before last k
    → find k d ≡ none
unfolding find
find_past last k [] h b = refl
find_past last k (x ∷ d) h b = rw (different h.0) (find_past last k d h.1 b)
  where
    different : UpTo last x.key → bytes_eq x.key k ≡ false
    different (inl e) = ground (arith, bytes_eq_iff x.key k, Before-ne last k b, e)
    different (inr e) =
        ground (arith, bytes_eq_iff x.key k, Before-ne x.key k (Before-trans x.key last k e b))

Ascending-front : (d l : List VersionedKv) → Ascending (kv_keys (d ++ l)) → Ascending (kv_keys d)
Ascending-front [] l a = tt
Ascending-front (x ∷ d) l a = (front x.key d a.0, Ascending-front d l a.1)
  where
    front :
        (k : Bytes) (m : List VersionedKv)
        → All (Before k) (kv_keys (m ++ l))
        → All (Before k) (kv_keys m)
    front k [] h = tt
    front k (y ∷ m) h = (h.0, front k m h.1)

pub All-front : (P : VersionedKv → Type 0) (d l : List VersionedKv) → All P (d ++ l) → All P d
All-front P [] l h = tt
All-front P (x ∷ d) l h = (h.0, All-front P d l h.1)

is_below-end : (last k : Bytes) → last ≢ [] → is_below last k ≡ is_before last k
is_below-end [] k n = absurd (n refl)
is_below-end (b ∷ bs) k n = refl

is_before-Before : (x k : Bytes) → Before k x → is_before x k ≡ true
is_before-Before x k h = rw (h, is_before)

is_before-past : (x k : Bytes) → Before x k → is_before x k ≡ false
is_before-past x k h = let g = (compare_bytes_swap k x).1 h in rw (g, is_before)

-- The ends of a range are below every key that is past them.
is_below-Before :
    (end_key k k' : Bytes) → Before k k' → is_below end_key k' ≡ true → is_below end_key k ≡ true
is_below-Before [] k k' h e = refl
is_below-Before (b ∷ bs) k k' h e = by_order (compare_bytes k' (b ∷ bs)) refl
  where
    by_order : (o : Ordering) → compare_bytes k' (b ∷ bs) ≡ o → is_below (b ∷ bs) k ≡ true
    by_order Ordering.lt q = is_before-Before (b ∷ bs) k (Before-trans k k' (b ∷ bs) h q)
    by_order Ordering.eq q = absurd (false≢true (rw (q, is_before) at e))
    by_order Ordering.gt q = absurd (false≢true (rw (q, is_before) at e))

-- The range with its end included.
abbrev up_to : Bytes → Bytes → Bytes → Bool
up_to start_key last k = in_range start_key last k || bytes_eq last k

module _ (start_key end_key last : Bytes) (nonempty : last ≢ []) where
  up_to-lower :
      (k : Bytes)
      → in_range start_key end_key last ≡ true
      → Before k last
      → up_to start_key last k ≡ in_range start_key end_key k
  up_to-lower k h b =
      rw
        (
          is_below-end last k nonempty,
          is_before-Before last k b,
          is_below-Before end_key k last b (ground (arith, h)),
        )
        (ground (arith, bytes_eq_iff last k, λ (e : last ≡ k). Before-ne k last b (sym e)))

  up_to-past : (k : Bytes) → Before last k → up_to start_key last k ≡ false
  up_to-past k b =
      rw (is_below-end last k nonempty, is_before-past last k b)
        (ground (arith, bytes_eq_iff last k, Before-ne last k b))

module _ (ns start_key end_key : Bytes) (state : Bytes → Option VersionedValue)
    (d l : List VersionedKv) (scan : IsScan ns (in_range start_key end_key) state (d ++ l))
    (nonempty : last_key d ≢ []) where
  not_nil : d ≢ []
  not_nil e = nonempty (ap last_key e)

  -- The last key is in the range of the scan.
  pub last_key-in_range : in_range start_key end_key (last_key d) ≡ true
  last_key-in_range =
      last_key-All (λ k. in_range start_key end_key k ≡ true) d l not_nil
        (keys_pass (in_range start_key end_key) (d ++ l) (λ k e. scan.exact k ∙ rw e refl))

  in_front :
      (k : Bytes)
      → find k l ≡ none
      → find k d ≡ (if in_range start_key end_key k then state k else none)
  in_front k e =
      sym (or_else_none (find k d))
      ∙ ap (or_else (find k d)) (sym e)
      ∙ sym (find-append k d l)
      ∙ scan.exact k
    where
      or_else_none : (o : Option VersionedValue) → or_else o none ≡ o
      or_else_none none = refl
      or_else_none (some v) = refl

  exact_at :
      (k : Bytes) (o : Ordering)
      → compare_bytes k (last_key d) ≡ o
      → find k d ≡ (if up_to start_key (last_key d) k then state k else none)
  exact_at k Ordering.lt b =
      in_front k
        (find_later k l (Before-All k (last_key d) l b (back-Before d l not_nil scan.ascending)))
      ∙ ap (λ t. if t then state k else none)
          (sym (up_to-lower start_key end_key (last_key d) nonempty k last_key-in_range b))
  exact_at k Ordering.eq b =
      let e : k ≡ last_key d = compare_bytes_eq k (last_key d) b in
      in_front k (
        find_later k l (
          subst (λ x. All (Before x) (kv_keys l)) (sym e) (back-Before d l not_nil scan.ascending)))
      ∙ rw (e, last_key-in_range) (ground (arith, bytes_eq_iff (last_key d) (last_key d)))
  exact_at k Ordering.gt b =
      let b' : Before (last_key d) k = (compare_bytes_swap k (last_key d)).0 b in
      find_past (last_key d) k d (front-UpTo d l scan.ascending) b'
      ∙ rw (up_to-past start_key end_key (last_key d) nonempty k b') refl

  pub IsScan-front :
      IsScan ns (λ k. in_range start_key (last_key d) k || bytes_eq (last_key d) k) state d
  IsScan-front = record {
    ascending = Ascending-front d l scan.ascending;
    in_ns = All-front (λ kv. kv.namespace ≡ ns) d l scan.in_ns;
    exact = λ k. exact_at k (compare_bytes k (last_key d)) refl;
  }
