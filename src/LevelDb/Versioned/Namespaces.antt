-- ===== src/LevelDb/Versioned/Namespaces.antt =====
-- The updates of one namespace, and the state that the contents of LevelDB stand for after them.
use fabric.Prelude.{
  ◌≡◌, ◌≢◌, refl, sym, ap, ◌∙◌, Option, none, some, Bool, true, ◌&&◌, [], ◌∷◌, arith, if◌then◌else◌,
  All, Bool-cases, inl, inr,
}
use fabric.Prelude.Bytes.{Bytes, bytes_eq, bytes_eq_iff, bytes_Eq}
use fabric.Prelude.Assoc.{Assoc, lookup, insert, keys, lookup-insert}
use fabric.Prelude.Outcome.{Outcome, ok}
use fabric.Codec.{Varint}
use fabric.Version.{Height, IsUint64}
use fabric.StateDb.{VersionedValue, NsUpdates}
use fabric.StateDb.SortedKeys.{Distinct}
use fabric.StateDb.VersionedDb.{IsName}
use fabric.Validator.Combined.Merge.{visible}
use fabric.LevelDb.Store.{Contents, KvBatch, written}
use fabric.LevelDb.Prefix.{join_key-eq, join_key}
use fabric.LevelDb.Values.{decode_value, decode_value-encode_value}
use fabric.LevelDb.Versioned.{put_of, apply_ns}
use fabric.LevelDb.Versioned.Reads.{decode_stored, state_of, IsEncoded}

-- A value that is not deleted has a version of uint64.
abbrev pub IsWritable : VersionedValue → Type 0
IsWritable vv = (b : Bytes) → vv.value ≡ some b → (h : Height) × (vv.version ≡ some h) × IsUint64 h

-- The updates of one namespace.
abbrev pub updated :
    Bytes → NsUpdates → Bytes → Bytes → Option VersionedValue → Option VersionedValue
updated ns updates ns' k' old =
    if bytes_eq ns ns'
    then elim (lookup k' updates) [ none ↦ old | some vv ↦ visible (some vv) ]
    else old

pub lookup-absent :
    {V : Type 0} (k k' : Bytes) (m : Assoc Bytes V)
    → bytes_eq k k' ≡ true
    → All (λ x. x ≢ k) (keys m)
    → lookup k' m ≡ none
unfolding lookup
lookup-absent k k' [] e h = refl
lookup-absent k k' ((j, w) ∷ m) e h = ground (
  arith,
  bytes_eq_iff j k',
  bytes_eq_iff k k',
  e,
  lookup-absent k k' m e h.1,
  h.0,
  λ (p : j ≡ k') (q : k ≡ k'). p ∙ sym q,
)

updated-cons :
    (ns k : Bytes) (vv : VersionedValue) (updates : NsUpdates) (ns' k' : Bytes)
    (old : Option VersionedValue)
    → All (λ x. x ≢ k) (keys updates)
    → updated ns updates ns' k'
        (if bytes_eq ns ns' && bytes_eq k k' then visible (some vv) else old)
      ≡ updated ns ((k, vv) ∷ updates) ns' k' old
unfolding lookup
updated-cons ns k vv updates ns' k' old h = elim (Bool-cases (bytes_eq k k')) [
  | inl e ↦ rw (e, lookup-absent k k' updates e h) (ground arith)
  | inr e ↦ rw e (ground arith)
]

module _ (v : Varint) where
  -- What a value is written as: it decodes to the value, unless the key is deleted.
  abbrev IsPut : VersionedValue → Option Bytes → Type 0
  IsPut vv o =
      (decode_stored v o ≡ visible (some vv))
      × ((b : Bytes) → o ≡ some b → (w : VersionedValue) × (decode_value v b ≡ ok w))

  put_of_lem :
      (vv : VersionedValue) → IsWritable vv → (o : Option Bytes) × (put_of v vv ≡ ok o) × IsPut vv o
  put_of_lem vv w = by_value vv.value refl
    where
      by_value :
          (value : Option Bytes)
          → vv.value ≡ value
          → (o : Option Bytes) × (put_of v vv ≡ ok o) × IsPut vv o
      by_value none e = (none, rw e refl, (rw e refl, λ b f. cc))
      by_value (some b) e =
          let (h, f, u) = w b e in
          let (c, enc, dec) = decode_value-encode_value v b h u in
          (
            some c,
            rw (e, f, enc) refl,
            (
              rw (e, dec) (rw (← e, ← f) refl),
              λ x g. (_, ap (decode_value v) (sym (same c x g)) ∙ dec),
            ),
          )
        where
          same : (c x : Bytes) → some c ≡ some x → c ≡ x
          same c x g = cc

  pub state_of-insert :
      (contents : Contents) (kvs : KvBatch) (ns ns' k k' : Bytes) (o : Option Bytes)
      → IsName ns
      → IsName ns'
      → state_of v (written contents (insert (join_key ns k) o kvs)) ns' k' ≡ (
          if bytes_eq ns ns' && bytes_eq k k'
          then decode_stored v o
          else state_of v (written contents kvs) ns' k')
  unfolding state_of written
  state_of-insert contents kvs ns ns' k k' o n n' =
      rw (lookup-insert (join_key ns k) (join_key ns' k') o kvs, join_key-eq ns ns' k k' n n')
        (ground arith)

  -- Whatever is written decodes.
  pub insert-IsEncoded :
      (contents : Contents) (kvs : KvBatch) (key : Bytes) (o : Option Bytes)
      → IsEncoded v (written contents kvs)
      → ((b : Bytes) → o ≡ some b → (w : VersionedValue) × (decode_value v b ≡ ok w))
      → IsEncoded v (written contents (insert key o kvs))
  unfolding written
  insert-IsEncoded contents kvs key o h p j b e = elim (Bool-cases (bytes_eq key j)) [
    | inl hit ↦ p b (rw (lookup-insert key j o kvs, hit) at e)
    | inr miss ↦ h j b (rw (lookup-insert key j o kvs, miss) at e)
  ]

  abbrev Applied : Contents → Bytes → NsUpdates → KvBatch → Outcome KvBatch → Type 0
  Applied contents ns updates kvs r =
      (kvs' : KvBatch) × (r ≡ ok kvs')
      × IsEncoded v (written contents kvs')
      × ((ns' k' : Bytes)
          → IsName ns'
          → state_of v (written contents kvs') ns' k'
            ≡ updated ns updates ns' k' (state_of v (written contents kvs) ns' k'))

  pub apply_ns-Applied :
      (contents : Contents) (ns : Bytes) (updates : NsUpdates) (kvs : KvBatch)
      → IsName ns
      → Distinct (keys updates)
      → All (λ u. IsWritable u.1) updates
      → IsEncoded v (written contents kvs)
      → Applied contents ns updates kvs (apply_ns v ns updates kvs)
  unfolding apply_ns lookup
  apply_ns-Applied contents ns [] kvs n d w enc = (kvs, refl, enc, λ ns' k' n'. ground arith)
  apply_ns-Applied contents ns ((k, vv) ∷ updates) kvs n d w enc =
      let (o, put_ok, (means, decodes)) = put_of_lem vv w.0 in
      let (kvs', e, enc', st) =
        apply_ns-Applied contents ns updates (insert (join_key ns k) o kvs) n d.1 w.1
          (insert-IsEncoded contents kvs (join_key ns k) o enc decodes) in
      (
        kvs',
        rw (put_ok, apply_ns) e,
        enc',
        λ ns' k' n'.
            st ns' k' n'
            ∙ ap (updated ns updates ns' k') (
                state_of-insert contents kvs ns ns' k k' o n n'
                ∙ if_means (bytes_eq ns ns' && bytes_eq k k') _ means)
            ∙ updated-cons ns k vv updates ns' k' _ d.0,
      )
    where
      if_means :
          {x y : Option VersionedValue} (t : Bool) (old : Option VersionedValue)
          → x ≡ y
          → (if t then x else old) ≡ (if t then y else old)
      if_means t old e = rw e refl
