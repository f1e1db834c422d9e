-- ===== src/StateDb/Batch.antt =====
-- The batch as a map: what `Get` and `Exists` return after `Put` and `Delete`.
use mathlib.Core.Bool.{false≢true}
use mathlib.Core.Path.{subst}
use fabric.Prelude.{
  ◌≡◌, ◌≢◌, refl, Option, none, some, Bool, true, false, ◌&&◌, [], ◌∷◌, arith, All, if◌then◌else◌,
  Bool-cases, inl, inr, sym, ◌∙◌,
}
use fabric.Prelude.Bytes.{Bytes, bytes_eq, bytes_eq_iff, bytes_Eq}
use fabric.Prelude.Assoc.{lookup, insert, keys, lookup-insert}
use fabric.Prelude.Outcome.{ok}
use fabric.Version.{Height}
use fabric.StateDb.{
  or_empty, value_in, VersionedValue, NsUpdates, UpdateBatch, get, exists, is_present, set_in_ns,
  put, delete,
}
use fabric.StateDb.SortedKeys.{Distinct}

-- A write to one key of one namespace is read back there and nowhere else.
pub get-set_in_ns :
    (b : UpdateBatch) (ns key ns' key' : Bytes) (vv : VersionedValue)
    → get (set_in_ns b ns key vv) ns' key'
      ≡ (if bytes_eq ns ns' && bytes_eq key key' then some vv else get b ns' key')
unfolding get set_in_ns lookup
get-set_in_ns b ns key ns' key' vv =
    rw (lookup-insert ns ns' (insert key vv (or_empty (lookup ns b))) b)
      (in_ns (bytes_eq ns ns') refl)
  where
    in_ns :
        (same : Bool)
        → bytes_eq ns ns' ≡ same
        → value_in key'
            (if same then some (insert key vv (or_empty (lookup ns b))) else lookup ns' b)
          ≡ (if same && bytes_eq key key' then some vv else value_in key' (lookup ns' b))
    in_ns false e = refl
    in_ns true e =
        let e' : ns ≡ ns' = (bytes_eq_iff ns ns').0 e in
        rw (lookup-insert key key' vv (or_empty (lookup ns b)), e') (in_key (lookup ns' b))
      where
        in_key :
            (o : Option NsUpdates)
            → (if bytes_eq key key' then some vv else lookup key' (or_empty o))
              ≡ (if bytes_eq key key' then some vv else value_in key' o)
        in_key none = refl
        in_key (some m) = refl

pub exists-get : (b : UpdateBatch) (ns key : Bytes) → exists b ns key ≡ is_present (get b ns key)
unfolding exists get
exists-get b ns key = ground arith

-- `Get` after `Put` returns the value put at its own key, and is unchanged at every other key.
pub get-put :
    (b b' : UpdateBatch) (ns key ns' key' value : Bytes) (version : Option Height)
    → put b ns key (some value) version ≡ ok b'
    → get b' ns' key' ≡ (
        if bytes_eq ns ns' && bytes_eq key key'
        then some (record { value = some value; version = version })
        else get b ns' key')
unfolding put
get-put b b' ns key ns' key' value version h =
    ground
      (arith, get-set_in_ns b ns key ns' key' (record { value = some value; version = version }))

-- `Get` after `Delete` returns a nil value with the version of the deletion at its own key, and is
-- unchanged at every other key.
pub get-delete :
    (b : UpdateBatch) (ns key ns' key' : Bytes) (version : Option Height)
    → get (delete b ns key version) ns' key' ≡ (
        if bytes_eq ns ns' && bytes_eq key key'
        then some (record { value = none; version = version })
        else get b ns' key')
unfolding delete
get-delete b ns key ns' key' version =
    get-set_in_ns b ns key ns' key' (record { value = none; version = version })

-- Every namespace of a batch holds each of its keys once.
pub record IsBatch (b : UpdateBatch) : Type 0 where
  pub distinct : All (λ entry. Distinct (keys entry.1)) b

keys-insert-All :
    (P : Bytes → Type 0) (k : Bytes) (v : VersionedValue) (m : NsUpdates)
    → P k
    → All P (keys m)
    → All P (keys (insert k v m))
unfolding insert
keys-insert-All P k v [] p h = (p, h)
keys-insert-All P k v ((j, w) ∷ m) p h = elim (Bool-cases (bytes_eq j k)) [
  | inl e ↦ rw e (p, h.1)
  | inr e ↦ rw e (h.0, keys-insert-All P k v m p h.1)
]

keys-insert-Distinct :
    (k : Bytes) (v : VersionedValue) (m : NsUpdates)
    → Distinct (keys m)
    → Distinct (keys (insert k v m))
unfolding insert
keys-insert-Distinct k v [] h = (tt, tt)
keys-insert-Distinct k v ((j, w) ∷ m) h = elim (Bool-cases (bytes_eq j k)) [
  | inl e ↦ rw e (rw (← (bytes_eq_iff j k).0 e) h.0, h.1)
  | inr e ↦ rw e (
    keys-insert-All (λ x. x ≢ j) k v m (λ p. false≢true (sym e ∙ (bytes_eq_iff j k).1 (sym p))) h.0,
    keys-insert-Distinct k v m h.1,
  )
]

lookup-Distinct :
    (ns : Bytes) (b : UpdateBatch)
    → All (λ entry. Distinct (keys entry.1)) b
    → Distinct (keys (or_empty (lookup ns b)))
unfolding lookup
lookup-Distinct ns [] h = tt
lookup-Distinct ns ((j, m) ∷ b) h = elim (Bool-cases (bytes_eq j ns)) [
  | inl e ↦ rw e h.0
  | inr e ↦ rw e (lookup-Distinct ns b h.1)
]

insert-Distinct :
    (ns : Bytes) (m : NsUpdates) (b : UpdateBatch)
    → Distinct (keys m)
    → All (λ entry. Distinct (keys entry.1)) b
    → All (λ entry. Distinct (keys entry.1)) (insert ns m b)
unfolding insert
insert-Distinct ns m [] d h = (d, tt)
insert-Distinct ns m ((j, w) ∷ b) d h = elim (Bool-cases (bytes_eq j ns)) [
  | inl e ↦ rw e (d, h.1)
  | inr e ↦ rw e (h.0, insert-Distinct ns m b d h.1)
]

pub set_in_ns-IsBatch :
    (b : UpdateBatch) (ns key : Bytes) (vv : VersionedValue)
    → IsBatch b
    → IsBatch (set_in_ns b ns key vv)
unfolding set_in_ns
set_in_ns-IsBatch b ns key vv h = record {
  distinct =
      insert-Distinct ns _ b (keys-insert-Distinct key vv _ (lookup-Distinct ns b h.distinct))
        h.distinct;
}

pub lookup-IsBatch :
    (b : UpdateBatch) (ns : Bytes) (m : NsUpdates)
    → IsBatch b
    → lookup ns b ≡ some m
    → Distinct (keys m)
lookup-IsBatch b ns m h e =
    subst (λ o. Distinct (keys (or_empty o))) e (lookup-Distinct ns b h.distinct)
