-- ===== src/LevelDb/Versioned/Updates.antt =====
-- What `ApplyUpdates` writes: the state that the contents of LevelDB stand for afterwards.
use mathlib.Core.Path.{subst}
use fabric.Version.Serialization.{from_bytes-to_bytes}
use fabric.Prelude.{
  append-nil, ℕ, ◌≡◌, ◌≢◌, refl, sym, ap, ◌∙◌, Option, none, some, [], ◌∷◌, arith, All, Bool-cases,
  inl, inr, length, drop,
}
use fabric.Prelude.Bytes.{Bytes, bytes_eq, bytes_eq_iff, bytes_Eq}
use fabric.Prelude.Assoc.{lookup, insert, keys, lookup-insert}
use fabric.Prelude.Outcome.{ok}
use fabric.Codec.{Varint}
use fabric.Version.{Height, IsUint64, new_height_from_bytes}
use fabric.StateDb
use fabric.StateDb.{VersionedValue, NsUpdates, UpdateBatch}
use fabric.StateDb.SortedKeys.{Distinct}
use fabric.StateDb.VersionedDb.{IsName}
use fabric.Validator.Combined.Merge.{visible, latest}
use fabric.Validator.Combined.Overlay.{overlay}
use fabric.LevelDb.Store.{Contents, KvBatch, written}
use fabric.LevelDb.Prefix.{join_key}
use fabric.LevelDb.Values.{decode_value}
use fabric.LevelDb.Versioned.{save_point_key, apply_namespaces, apply_updates}
use fabric.LevelDb.Versioned.Reads.{decode_stored, state_of, IsEncoded}
use fabric.LevelDb.Versioned.Namespaces.{
  IsWritable, insert-IsEncoded, state_of-insert, lookup-absent, updated, apply_ns-Applied,
}

-- Every name of the batch is one of a chaincode and stands there once, with every key once, and the
-- values can be written.
pub record CanApply (batch : UpdateBatch) : Type 0 where
  pub once : Distinct (keys batch)
  pub named : All IsName (keys batch)
  pub ns_ok : All (λ e. Distinct (keys e.1) × All (λ u. IsWritable u.1) e.1) batch

module _ (v : Varint) where
  -- A batch hides the state that it is written to.
  abbrev hidden : UpdateBatch → Bytes → Bytes → Option VersionedValue → Option VersionedValue
  hidden batch ns k old = elim (StateDb.get batch ns k) [ none ↦ old | some vv ↦ visible (some vv) ]

  hidden-cons :
      (ns : Bytes) (updates : NsUpdates) (batch : UpdateBatch) (ns' k : Bytes)
      (old : Option VersionedValue)
      → All (λ x. x ≢ ns) (keys batch)
      → hidden batch ns' k (updated ns updates ns' k old) ≡ hidden ((ns, updates) ∷ batch) ns' k old
  unfolding StateDb.get lookup
  hidden-cons ns updates batch ns' k old h = elim (Bool-cases (bytes_eq ns ns')) [
    | inl e ↦ ground (arith, e, lookup-absent ns ns' batch e h)
    | inr e ↦ ground (arith, e)
  ]

  apply_namespaces-Applied :
      (contents : Contents) (batch : UpdateBatch) (kvs : KvBatch)
      → Distinct (keys batch)
      → All IsName (keys batch)
      → All (λ e. Distinct (keys e.1) × All (λ u. IsWritable u.1) e.1) batch
      → IsEncoded v (written contents kvs)
      → (kvs' : KvBatch) × (apply_namespaces v batch kvs ≡ ok kvs')
        × IsEncoded v (written contents kvs')
        × ((ns k : Bytes)
            → IsName ns
            → state_of v (written contents kvs') ns k
              ≡ hidden batch ns k (state_of v (written contents kvs) ns k))
  unfolding apply_namespaces StateDb.get lookup
  apply_namespaces-Applied contents [] kvs d n w enc = (kvs, refl, enc, λ ns k h. refl)
  apply_namespaces-Applied contents ((ns, updates) ∷ batch) kvs d n w enc =
      let (kvs', e, enc', st) = apply_ns-Applied v contents ns updates kvs n.0 w.0.0 w.0.1 enc in
      let (kvs'', e', enc'', st') = apply_namespaces-Applied contents batch kvs' d.1 n.1 w.1 enc' in
      (
        kvs'',
        rw (e, apply_namespaces) e',
        enc'',
        λ ns' k h.
            st' ns' k h
            ∙ ap (hidden batch ns' k) (st ns' k h)
            ∙ hidden-cons ns updates batch ns' k _ d.0,
      )

  visible-state_of :
      (contents : Contents) (ns k : Bytes)
      → visible (state_of v contents ns k) ≡ state_of v contents ns k
  unfolding state_of decode_value
  visible-state_of contents ns k = stored (contents (join_key ns k))
    where
      stored : (o : Option Bytes) → visible (decode_stored v o) ≡ decode_stored v o
      stored none = refl
      stored (some b) = ground arith

  hidden-overlay :
      (contents : Contents) (batch : UpdateBatch) (ns k : Bytes)
      → hidden batch ns k (state_of v contents ns k) ≡ overlay (state_of v contents) batch ns k
  unfolding overlay
  hidden-overlay contents batch ns k = by_update (StateDb.get batch ns k)
    where
      by_update :
          (o : Option VersionedValue)
          → (elim o [ none ↦ state_of v contents ns k | some vv ↦ visible (some vv) ])
            ≡ visible (latest o (state_of v contents ns k))
      by_update none = sym (visible-state_of contents ns k)
      by_update (some vv) = refl

  -- The savepoint does not show in a namespace with a nonempty name.
  state_of-save_point :
      (contents : Contents) (kvs : KvBatch) (b ns k : Bytes)
      → IsName ns
      → ns ≢ []
      → state_of v (written contents (insert save_point_key (some b) kvs)) ns k
        ≡ state_of v (written contents kvs) ns k
  state_of-save_point contents kvs b ns k n ne =
      state_of-insert v contents kvs [] ns [] k (some b) tt n
      ∙ ground (arith, bytes_eq_iff [] ns, λ (e : [] ≡ ns). ne (sym e))

  -- The savepoint decodes as a value, too.
  decode_value-height :
      (height : Height) (b : Bytes)
      → new_height_from_bytes v b ≡ ok (height, length b)
      → decode_value v b ≡ ok (record { value = some (drop (length b) b); version = some height })
  unfolding decode_value
  decode_value-height height b e = rw e (ground arith)

  -- If every name of a batch is one of a chaincode and stands there once, with every key once, and
  -- every value that is not deleted has a version of uint64, then `ApplyUpdates` at a height of uint64
  -- writes a batch to contents whose values decode, after which they decode still, every key of a
  -- namespace with a nonempty name has the value of the updates or else the one before, and the
  -- savepoint reads back as the height.
  pub apply_updates-overlay :
      (contents : Contents) (batch : UpdateBatch) (height : Height)
      → IsEncoded v contents
      → CanApply batch
      → IsUint64 height
      → (kvs : KvBatch) × (apply_updates v batch height ≡ ok kvs)
        × IsEncoded v (written contents kvs)
        × ((ns k : Bytes)
            → IsName ns
            → ns ≢ []
            → state_of v (written contents kvs) ns k ≡ overlay (state_of v contents) batch ns k)
        × (saved : Bytes) × (written contents kvs save_point_key ≡ some saved)
        × (n : ℕ) × (new_height_from_bytes v saved ≡ ok (height, n))
  unfolding apply_updates written lookup bytes_eq
  apply_updates-overlay contents batch height enc can u =
      let (kvs, e, enc', st) =
        apply_namespaces-Applied contents batch [] can.once can.named can.ns_ok enc in
      let (b, tb, fb) = from_bytes-to_bytes v height [] u in
      let back = subst (λ x. new_height_from_bytes v x ≡ ok (height, length b)) (append-nil b) fb in
      (
        insert save_point_key (some b) kvs,
        rw (e, tb) refl,
        insert-IsEncoded v contents kvs save_point_key (some b) enc' (λ x g.
            (_, ap (decode_value v) (sym (same b x g)) ∙ decode_value-height height b back)),
        λ ns k n ne.
            state_of-save_point contents kvs b ns k n ne
            ∙ st ns k n
            ∙ hidden-overlay contents batch ns k,
        b,
        rw (lookup-insert save_point_key save_point_key (some b) kvs) refl,
        length b,
        back,
      )
    where
      same : (c x : Bytes) → some c ≡ some x → c ≡ x
      same c x g = cc
