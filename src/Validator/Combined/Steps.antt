-- ===== src/Validator/Combined/Steps.antt =====
-- One step of the combined iterator: what it selects, what it skips, and the end key.
use fabric.Prelude.{
  ℕ, zero, suc, ◌<◌, ◌≡◌, refl, ◌∙◌, Option, none, some, true, false, not, ◌||◌, List, [], ◌∷◌,
  ◌++◌, arith, Bool-cases, inl, inr, if◌then◌else◌,
}
use fabric.Prelude.Outcome.{Outcome, ok}
use fabric.StateDb
use fabric.StateDb.{VersionedValue, VersionedKv}
use fabric.StateDb.VersionedDb.{VersionedDb}
use fabric.StateDb.Scan.{Yields}
use fabric.Validator.Combined.{
  CombinedIterator, select, serve_end_key_if_needed, next, end_item, both_nil, latest_at,
}
use fabric.Validator.Combined.Merge.{live, latest}

-- The result `r` of a first call, and then the run of the iterator, deliver the list.
abbrev pub Delivers :
    {S : Type 0}
    → (S → Outcome (Option VersionedKv × S))
    → Outcome (Option VersionedKv × S)
    → List VersionedKv
    → Type 0
Delivers {S = S} step r [] = (s' : S) × (r ≡ ok (none, s'))
Delivers {S = S} step r (kv ∷ l) = (s' : S) × (r ≡ ok (some kv, s')) × Yields step s' l

pub Yields-Delivers :
    {S : Type 0} (step : S → Outcome (Option VersionedKv × S)) (s : S) (l : List VersionedKv)
    → Delivers step (step s) l
    → Yields step s l
Yields-Delivers step s [] d = d
Yields-Delivers step s (kv ∷ l) d = d

-- The current item of an iterator in front of what it still yields.
abbrev pub Front :
    {S : Type 0}
    → (S → Outcome (Option VersionedKv × S))
    → Option VersionedKv
    → S
    → List VersionedKv
    → Type 0
Front step item s [] = item ≡ none
Front step item s (kv ∷ l) = (item ≡ some kv) × Yields step s l

-- A move leaves the next item in front.
pub advance :
    {S : Type 0} (step : S → Outcome (Option VersionedKv × S)) (s : S) (l : List VersionedKv)
    → Yields step s l
    → (item : Option VersionedKv) × (s' : S) × (step s ≡ ok (item, s')) × Front step item s' l
advance step s [] (s', e) = (none, s', e, refl)
advance step s (kv ∷ l) (s', e, y) = (some kv, s', e, (refl, y))

latest_at-latest : (o in_db : Option VersionedValue) → latest_at o (ok in_db) ≡ ok (latest o in_db)
latest_at-latest none in_db = refl
latest_at-latest (some vv) in_db = refl

module _ (db : VersionedDb) where
  -- The end key as it is served: the update's value, or the database's.
  abbrev pub end_items : CombinedIterator db → Option VersionedValue → List VersionedKv
  end_items itr in_db =
      if not itr.include_end_key || itr.end_key_served
      then []
      else elim (end_item db itr (latest (StateDb.get itr.updates itr.ns itr.end_key) in_db)) [
        | none ↦ []
        | some kv ↦ kv ∷ []
      ]

  -- What the iterator stands before: `dl` of the database and `ul` of the updates.
  pub record Holds (itr : CombinedIterator db) (dl ul : List VersionedKv) : Type 0 where
    pub db_front : Front db.next_item itr.db_item itr.db_itr dl
    pub updates_front : Front StateDb.next itr.updates_item itr.updates_itr ul

  next_exhausted :
      (itr : CombinedIterator db) (fuel : ℕ)
      → itr.db_item ≡ none
      → itr.updates_item ≡ none
      → next db (suc fuel) itr ≡ serve_end_key_if_needed db itr
  unfolding next
  next_exhausted itr fuel d u =
      let e : both_nil itr.db_item itr.updates_item ≡ true = ground arith in rw (e, next)

  serve_served :
      (itr : CombinedIterator db)
      → itr.end_key_served ≡ true
      → serve_end_key_if_needed db itr ≡ ok (none, itr)
  unfolding serve_end_key_if_needed
  serve_served itr e = elim (Bool-cases (not itr.include_end_key)) [
    | inl n ↦ rw (n, serve_end_key_if_needed)
    | inr n ↦ rw (n, serve_end_key_if_needed) (rw (e, serve_end_key_if_needed))
  ]

  serve_not_served :
      (itr : CombinedIterator db) (in_db : Option VersionedValue)
      → (not itr.include_end_key || itr.end_key_served) ≡ false
      → db.get_state itr.ns itr.end_key ≡ ok in_db
      → serve_end_key_if_needed db itr
        ≡ ok (
          end_item db itr (latest (StateDb.get itr.updates itr.ns itr.end_key) in_db),
          record itr { end_key_served = true },
        )
  unfolding serve_end_key_if_needed
  serve_not_served itr in_db e gs =
      rw (e, gs, latest_at-latest (StateDb.get itr.updates itr.ns itr.end_key) in_db)

  -- Both iterators are exhausted: the end key is served, once.
  pub end-Delivers :
      (itr : CombinedIterator db) (in_db : Option VersionedValue) (f g : ℕ)
      → 0 < f
      → 0 < g
      → itr.db_item ≡ none
      → itr.updates_item ≡ none
      → db.get_state itr.ns itr.end_key ≡ ok in_db
      → Delivers (next db g) (next db f itr) (end_items itr in_db)
  end-Delivers itr in_db zero g hf hg d u gs = absurd (omega arith)
  end-Delivers itr in_db (suc f) zero hf hg d u gs = absurd (omega arith)
  end-Delivers itr in_db (suc f) (suc g) hf hg d u gs =
      rw (next_exhausted itr f d u)
        (elim (Bool-cases (not itr.include_end_key || itr.end_key_served)) [
          | inl e ↦ rw e (itr, unfold serve_end_key_if_needed in rw e)
          | inr e ↦
              rw (e, serve_not_served itr in_db e gs)
                (last (end_item db itr (latest (StateDb.get itr.updates itr.ns itr.end_key) in_db)))
        ])
    where
      last :
          (o : Option VersionedKv)
          → Delivers
              (next db (suc g))
              (ok (o, record itr { end_key_served = true }))
              (elim o [ none ↦ [] | some kv ↦ kv ∷ [] ])
      last none = (record itr { end_key_served = true }, refl)
      last (some kv) = (
        record itr { end_key_served = true },
        refl,
        (
          record itr { end_key_served = true },
          next_exhausted (record itr { end_key_served = true }) g d u
              ∙ serve_served (record itr { end_key_served = true }) refl,
        ),
      )

  pub deliver_live :
      (itr moved : CombinedIterator db) (kv : VersionedKv) (l : List VersionedKv) (f g : ℕ)
      → both_nil itr.db_item itr.updates_item ≡ false
      → select db itr ≡ ok (some kv, moved)
      → Delivers (next db g) (next db f moved) l
      → Delivers (next db g) (next db g moved) l
      → Delivers (next db g) (next db (suc f) itr) (live kv l)
  unfolding next
  deliver_live itr moved kv l f g b s skip go_on =
      rw (b, next)
        (rw s
          (elim kv.value
            as (λ v.
              Delivers (next db g)
                (elim v [ none ↦ next db f moved | some b ↦ ok (some kv, moved) ])
                (elim v [ none ↦ l | some b ↦ kv ∷ l ])) [
                  | none ↦ skip
                  | some v ↦ (moved, refl, Yields-Delivers (next db g) moved l go_on)
                ]))

  pub live-append : (kv : VersionedKv) (l e : List VersionedKv) → live kv l ++ e ≡ live kv (l ++ e)
  live-append kv l e =
      elim kv.value
        as (λ v.
          elim v [ none ↦ l | some b ↦ kv ∷ l ] ++ e
          ≡ elim v [ none ↦ l ++ e | some b ↦ kv ∷ (l ++ e) ]) [ none ↦ refl | some b ↦ refl ]
