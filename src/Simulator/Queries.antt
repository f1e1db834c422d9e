-- ===== src/Simulator/Queries.antt =====
-- The range query that is recorded for an iterator is current in the state that was simulated on.
use mathlib.Core.Bool.{false≢true}
use mathlib.Core.Path.{subst}
use fabric.Prelude.{
  ◌≡◌, ◌≢◌, refl, sym, ap, ◌∙◌, Option, none, some, Bool, true, not, List, [], ◌∷◌, ◌++◌, arith,
  All, map, inl, inr, ◌⊎◌, append-nil,
}
use fabric.Prelude.Bytes.{Bytes, Before, bytes_eq_iff}
use fabric.Prelude.Assoc.{lookup}
use fabric.Version.{Height}
use fabric.StateDb
use fabric.StateDb.{VersionedValue, VersionedKv}
use fabric.StateDb.SortedKeys.{Ascending}
use fabric.StateDb.Scan.{find, kv_keys, value_of, in_range, IsScan}
use fabric.StateDb.Scan.Prefix.{last_key, IsScan-front, All-front}
use fabric.StateDb.Scan.Unique.{find_self, find_later}
use fabric.StateDb.VersionedDb.{VersionedDb, IsName}
use fabric.RwSet.{KvRead, RangeQueryInfo, no_reads, kv_reads}
use fabric.RwSet.{new_kv_read, TxRwSet}
use fabric.RwSet.Builder.Everywhere.{IsNsSet}
use fabric.Validator.Mvcc.{committed_version}
use fabric.Validator.Mvcc.Current.{IsRawTx, ReadIsCurrent, TxIsCurrent}
use fabric.Simulator.{version_part}
use fabric.RwSet.QueryResults.{Hasher}
use fabric.Validator.Combined.Merge.{visible}
use fabric.Validator.Combined.Overlay.{overlay, in_query}
use fabric.Validator.Combined.RangeQuery.{IsEndKey}
use fabric.Validator.Mvcc.Current.{IsRawInfo, IsRaw, QueryIsCurrent}
use fabric.Validator.RangeQuery.RawReads.{to_read, HasVersion}
use fabric.Simulator.{Settings, ResultsItr, with_reads, with_results}
use fabric.Simulator.Scans.{IsItr, IsEnd}

-- Every value of the state is there, with a version.
abbrev pub IsStored : (Bytes → Bytes → Option VersionedValue) → Type 0
IsStored state =
    (ns k : Bytes) (vv : VersionedValue)
    → state ns k ≡ some vv
    → ((b : Bytes) × (vv.value ≡ some b)) × ((h : Height) × (vv.version ≡ some h))

kv_reads-with_reads : (rs : List KvRead) → kv_reads (with_reads rs no_reads) ≡ rs
kv_reads-with_reads [] = refl
kv_reads-with_reads (r ∷ rs) = refl

with_reads-IsRawInfo : (rs : List KvRead) → All HasVersion rs → IsRawInfo (with_reads rs no_reads)
with_reads-IsRawInfo [] h = tt
with_reads-IsRawInfo (r ∷ rs) h = h

IsScan-same :
    (ns : Bytes) (test test' : Bytes → Bool) (state state' : Bytes → Option VersionedValue)
    (l : List VersionedKv)
    → ((k : Bytes) → test k ≡ test' k)
    → ((k : Bytes) → state k ≡ state' k)
    → IsScan ns test state l
    → IsScan ns test' state' l
IsScan-same ns test test' state state' l t s scan = record {
  ascending = scan.ascending;
  in_ns = scan.in_ns;
  exact = λ k. rw (← t k, ← s k) (scan.exact k);
}

-- What holds of every value that is found holds of every item.
found-All :
    (P : VersionedValue → Type 0) (l : List VersionedKv)
    → Ascending (kv_keys l)
    → ((k : Bytes) (vv : VersionedValue) → find k l ≡ some vv → P vv)
    → All (λ kv. P (value_of kv)) l
unfolding find
found-All P [] a h = tt
found-All P (kv ∷ l) a h =
    (h kv.key (value_of kv) (find_self kv l), found-All P l a.1 (λ k vv e. h k vv (later k vv e)))
  where
    later : (k : Bytes) (vv : VersionedValue) → find k l ≡ some vv → find k (kv ∷ l) ≡ some vv
    later k vv e = ground (
      arith,
      e,
      bytes_eq_iff kv.key k,
      λ (p : kv.key ≡ k). find_later k l (subst (λ x. All (Before x) (kv_keys l)) p a.0),
    )

reads-HasVersion :
    (l : List VersionedKv)
    → All (λ kv. (h : Height) × (kv.version ≡ some h)) l
    → All HasVersion (map to_read l)
reads-HasVersion [] h = tt
reads-HasVersion (kv ∷ l) h = (h.0, reads-HasVersion l h.1)

module _ (state : Bytes → Bytes → Option VersionedValue) where
  abbrev pub IsQuery : Bytes → RangeQueryInfo → Type 0
  IsQuery ns q = QueryIsCurrent state [] ns q × IsRaw q

  pub read-ReadIsCurrent :
      (ns key : Bytes) → ReadIsCurrent state [] ns (new_kv_read key (version_part (state ns key)))
  unfolding StateDb.get lookup
  read-ReadIsCurrent ns key = record { not_updated = refl; same_version = by_value (state ns key) }
    where
      by_value : (o : Option VersionedValue) → committed_version o ≡ version_part o
      by_value none = refl
      by_value (some vv) = refl

  -- A validated read-write set of the builder.
  pub sets-TxIsCurrent :
      (tx : TxRwSet)
      → All (IsNsSet IsName (ReadIsCurrent state []) IsQuery) tx
      → TxIsCurrent state [] tx × IsRawTx tx
  sets-TxIsCurrent [] h = (tt, tt)
  sets-TxIsCurrent (s ∷ tx) h =
      let (current, raw) = sets-TxIsCurrent tx h.1 in
      let (queries, raws) = both s.range_queries_info h.0.queries_ok in
      (
        (record { reads_current = h.0.reads_ok; queries_current = queries }, current),
        ((h.0.named, raws), raw),
      )
    where
      both :
          (qs : List RangeQueryInfo)
          → All (IsQuery s.name_space) qs
          → All (QueryIsCurrent state [] s.name_space) qs × All IsRaw qs
      both [] a = (tt, tt)
      both (q ∷ qs) a = let (x, y) = both qs a.1 in ((a.0.0, x), (a.0.1, y))

module _ (db : VersionedDb) (hasher : Hasher) (settings : Settings)
    (state : Bytes → Bytes → Option VersionedValue) (stored : IsStored state) where
  -- Without updates the overlay is the state.
  overlay-nothing : (ns k : Bytes) → state ns k ≡ overlay state [] ns k
  unfolding overlay StateDb.get lookup
  overlay-nothing ns k = by_value (state ns k) refl
    where
      by_value : (o : Option VersionedValue) → state ns k ≡ o → o ≡ visible o
      by_value none e = refl
      by_value (some vv) e = let ((b, v), h) = stored ns k vv e in ground (arith, v)

  -- The iterator has ended, or has delivered an item last whose key is not empty.
  abbrev pub IsAdvanced : ResultsItr db hasher settings → Type 0
  IsAdvanced it = (it.range_query_info.itr_exhausted ≡ true) ⊎ (it.range_query_info.end_key ≢ [])

  module _ (it : ResultsItr db hasher settings) (h : IsItr db hasher settings state it)
      (advanced : IsAdvanced it) where
    abbrev recorded : RangeQueryInfo
    recorded =
        with_results (it.range_query_results_helper.pending_results, none) it.range_query_info

    delivered-HasVersion : All HasVersion (map to_read h.delivered)
    delivered-HasVersion = reads-HasVersion h.delivered (
        All-front (λ kv. (v : Height) × (kv.version ≡ some v)) h.delivered h.rest
          (found-All (λ vv. (v : Height) × (vv.version ≡ some v)) (h.delivered ++ h.rest)
            h.scan.ascending (λ k vv e. (stored it.ns k vv (ground (arith, h.scan.exact k, e))).1)))

    abbrev IsRange : List VersionedKv → (Bytes → Bool) → Type 0
    IsRange l test = IsScan it.ns test (state it.ns) l

    -- The range that is recorded holds what was delivered.
    delivered-IsRange :
        IsEnd db hasher settings state it h.delivered h.rest
        → IsRange h.delivered (
            in_query it.range_query_info.start_key it.range_query_info.end_key
              (not it.range_query_info.itr_exhausted))
          × IsEndKey it.range_query_info.end_key (not it.range_query_info.itr_exhausted)
    delivered-IsRange (inl (off, last)) =
        let start_key = it.range_query_info.start_key in
        rw (off, last)
          (
            IsScan-front it.ns start_key it.end_key (state it.ns) h.delivered h.rest h.scan
                (nonempty advanced),
            nonempty advanced,
          )
      where
        nonempty : IsAdvanced it → last_key h.delivered ≢ []
        nonempty (inl on) e = false≢true (sym off ∙ on)
        nonempty (inr ne) e = ne (last ∙ e)
    delivered-IsRange (inr (nothing, on, same)) = (
      IsScan-same it.ns _ _ (state it.ns) (state it.ns) h.delivered
          (λ k. rw (on, same) (ground arith)) (λ k. refl)
          (subst (λ l. IsRange l (in_range it.range_query_info.start_key it.end_key))
            (ap (λ l. h.delivered ++ l) nothing ∙ append-nil h.delivered) h.scan),
      rw on tt,
    )

    pub recorded-QueryIsCurrent : QueryIsCurrent state [] it.ns recorded × IsRaw recorded
    recorded-QueryIsCurrent =
        let (scan, end_ok) = delivered-IsRange h.end_ok in
        (
          record {
            results = h.delivered;
            is_scan =
                IsScan-same it.ns _ _ (state it.ns) (overlay state [] it.ns) h.delivered (λ k. refl)
                  (overlay-nothing it.ns) scan;
            same_results =
                rw h.unset (kv_reads-with_reads it.range_query_results_helper.pending_results)
                ∙ h.kept;
          },
          record {
            raw = rw (h.unset, h.kept) (with_reads-IsRawInfo _ delivered-HasVersion);
            end_ok = end_ok;
          },
        )
