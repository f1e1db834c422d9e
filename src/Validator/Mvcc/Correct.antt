-- ===== src/Validator/Mvcc/Correct.antt =====
-- The validation of a transaction decides whether the transaction read the current state.
use mathlib.Core.Bool.{false≢true}
use fabric.Prelude.{
  ℕ, ◌<◌, ◌+◌, ◌≡◌, ◌↔◌, refl, sym, ◌∙◌, ap, Option, Bool, true, false, not, List, [], ◌∷◌, arith,
  All, inl, inr, ◌⊎◌, map,
}
use fabric.Prelude.Bytes.{Bytes}
use fabric.Prelude.Outcome.{Outcome, ok}
use fabric.StateDb.{VersionedValue, VersionedKv, UpdateBatch}
use fabric.StateDb.Batch.{IsBatch}
use fabric.StateDb.Scan.{IsScan, Yields}
use fabric.StateDb.Scan.Unique.{IsScan-unique}
use fabric.StateDb.VersionedDb.{VersionedDb, Serves, IsName}
use fabric.RwSet.{
  KvRead, RangeQueryInfo, TxRwSet, ReadsInfo, no_reads, raw_reads, reads_merkle_hashes, kv_reads,
}
use fabric.RwSet.QueryResults.{Hasher}
use fabric.Validator.Combined
use fabric.Validator.Combined.{CombinedIterator, new_combined_iterator}
use fabric.Validator.Combined.Overlay.{overlay, in_query}
use fabric.Validator.Combined.RangeQuery.{new_combined_iterator-IsScan}
use fabric.Validator.RangeQuery.{validate_results}
use fabric.Validator.RangeQuery.RawReads.{
  to_read, HasVersion, reads_match, reads_match_iff, validate_results-match,
}
use fabric.Validator.Mvcc.{
  validate_read_set, validate_range_query, validate_range_queries, validate_tx, valid,
  mvcc_read_conflict, phantom_read_conflict,
}
use fabric.Validator.Mvcc.Current.{
  IsRawInfo, IsRaw, IsRawTx, ReadIsCurrent, QueryIsCurrent, TxIsCurrent,
}
use fabric.Validator.Mvcc.Reads.{Decides, read_set_current}

-- The same with fuel: some bound is enough.
abbrev DecidesFrom : (ℕ → Outcome Bool) → Type 0 → Type 0
DecidesFrom r P = (b : Bool) × (n : ℕ) × ((fuel : ℕ) → n < fuel → r fuel ≡ ok b) × ((b ≡ true) ↔ P)

module _ (db : VersionedDb) (state : Bytes → Bytes → Option VersionedValue)
    (serves : Serves db state) (updates : UpdateBatch) (batch : IsBatch updates)
    (hasher : Hasher) where
  -- The raw reads of a query, with the iterator that its range gives.
  raw_current :
      (ns : Bytes) (q : RangeQueryInfo) (rs : List KvRead) (itr : CombinedIterator db)
      (l : List VersionedKv) (n : ℕ)
      → kv_reads q.reads_info ≡ rs
      → All HasVersion rs
      → IsScan ns
          (in_query q.start_key q.end_key (not q.itr_exhausted))
          (overlay state updates ns)
          l
      → ((fuel : ℕ) → n < fuel → Yields (Combined.next db fuel) itr l)
      → DecidesFrom
          (λ fuel. validate_results (Combined.next db fuel) rs itr)
          (QueryIsCurrent state updates ns q)
  raw_current ns q rs itr l n e v scan y = (
    reads_match rs l,
    n,
    λ fuel h. validate_results-match (Combined.next db fuel) rs l itr v (y fuel h),
    (
      λ p. record { results = l; is_scan = scan; same_results = e ∙ (reads_match_iff rs l).0 p },
      λ p.
          let same : p.results ≡ l = IsScan-unique ns _ _ p.results l p.is_scan scan in
          (reads_match_iff rs l).1 (sym e ∙ p.same_results ∙ ap (map to_read) same),
    ),
  )

  query_current :
      (ns : Bytes) (q : RangeQueryInfo)
      → IsName ns
      → IsRaw q
      → DecidesFrom
          (λ fuel. validate_range_query db hasher fuel ns q updates)
          (QueryIsCurrent state updates ns q)
  unfolding validate_range_query
  query_current ns q named raw =
      let (itr, l, n, e, scan, y) =
        new_combined_iterator-IsScan db state updates ns q.start_key q.end_key (not q.itr_exhausted)
          serves batch named raw.end_ok in
      by_info itr l n e scan y q.reads_info refl raw.raw
    where
      by_info :
          (itr : CombinedIterator db) (l : List VersionedKv) (n : ℕ)
          → new_combined_iterator db updates ns q.start_key q.end_key (not q.itr_exhausted) ≡ ok itr
          → IsScan ns
              (in_query q.start_key q.end_key (not q.itr_exhausted))
              (overlay state updates ns)
              l
          → ((fuel : ℕ) → n < fuel → Yields (Combined.next db fuel) itr l)
          → (info : ReadsInfo) → q.reads_info ≡ info
          → IsRawInfo info
          → DecidesFrom
              (λ fuel. validate_range_query db hasher fuel ns q updates)
              (QueryIsCurrent state updates ns q)
      by_info itr l n e scan y no_reads i r =
          let (b, n', f, d) = raw_current ns q [] itr l n (rw i) tt scan y in
          (
            b,
            n',
            λ fuel h. rw (e, validate_range_query) (rw (i, validate_range_query) (f fuel h)),
            d,
          )
      by_info itr l n e scan y (raw_reads rs) i r =
          let (b, n', f, d) = raw_current ns q rs itr l n (rw i) r scan y in
          (
            b,
            n',
            λ fuel h. rw (e, validate_range_query) (rw (i, validate_range_query) (f fuel h)),
            d,
          )
      by_info itr l n e scan y (reads_merkle_hashes m) i r = absurd r

  queries_current :
      (ns : Bytes) (qs : List RangeQueryInfo)
      → IsName ns
      → All IsRaw qs
      → DecidesFrom
          (λ fuel. validate_range_queries db hasher fuel ns qs updates)
          (All (QueryIsCurrent state updates ns) qs)
  unfolding validate_range_queries
  queries_current ns [] named raw = (true, 0, (λ fuel h. refl), (λ _. tt, λ _. refl))
  queries_current ns (q ∷ qs) named raw =
      both (query_current ns q named raw.0) (queries_current ns qs named raw.1)
    where
      both :
          DecidesFrom
            (λ fuel. validate_range_query db hasher fuel ns q updates)
            (QueryIsCurrent state updates ns q)
          → DecidesFrom
              (λ fuel. validate_range_queries db hasher fuel ns qs updates)
              (All (QueryIsCurrent state updates ns) qs)
          → DecidesFrom
              (λ fuel. validate_range_queries db hasher fuel ns (q ∷ qs) updates)
              (All (QueryIsCurrent state updates ns) (q ∷ qs))
      both (false, n, e, i) rest = (
        false,
        n,
        (λ fuel h. rw (e fuel h, validate_range_queries)),
        (λ p. absurd (false≢true p), λ p. i.1 p.0),
      )
      both (true, n, e, i) (b, n', e', i') = (
        b,
        n + n',
        (λ fuel h. rw (e fuel (omega arith), validate_range_queries) (e' fuel (omega arith))),
        (λ p. (i.0 refl, i'.0 p), λ p. i'.1 p.1),
      )

  -- The answers of the validation.
  abbrev IsVerdict : ℕ → Type 0
  IsVerdict c = (c ≡ valid) ⊎ ((c ≡ mvcc_read_conflict) ⊎ (c ≡ phantom_read_conflict))

  -- For a database that serves `state`, a batch with distinct keys, namespaces without zero bytes, and
  -- range queries with raw reads that all carry a version and with an end key that is not empty where
  -- the range includes it, the validation of a transaction returns, given fuel above some bound: it
  -- answers valid, a read conflict or a phantom conflict, and answers valid exactly when every read is
  -- of the committed version of a key that the batch does not touch and every range query would give
  -- the recorded results again in `state` with the batch applied.
  pub validate_tx_iff :
      (tx : TxRwSet)
      → IsRawTx tx
      → (c n : ℕ) × ((fuel : ℕ) → n < fuel → validate_tx db hasher fuel tx updates ≡ ok c)
        × IsVerdict c
        × ((c ≡ valid) ↔ TxIsCurrent state updates tx)
  unfolding validate_tx
  validate_tx_iff [] raw = (valid, 0, (λ fuel h. refl), inl refl, (λ _. tt, λ _. refl))
  validate_tx_iff (s ∷ rest) raw =
      step (read_set_current db state serves updates s.name_space s.reads)
        (queries_current s.name_space s.range_queries_info raw.0.0 raw.0.1)
        (validate_tx_iff rest raw.1)
    where
      step :
          Decides
            (validate_read_set db s.name_space s.reads updates)
            (All (ReadIsCurrent state updates s.name_space) s.reads)
          → DecidesFrom
              (λ fuel.
                validate_range_queries db hasher fuel s.name_space s.range_queries_info updates)
              (All (QueryIsCurrent state updates s.name_space) s.range_queries_info)
          → ((c n : ℕ) × ((fuel : ℕ) → n < fuel → validate_tx db hasher fuel rest updates ≡ ok c)
              × IsVerdict c
              × ((c ≡ valid) ↔ TxIsCurrent state updates rest))
          → (c n : ℕ) × ((fuel : ℕ)
              → n < fuel
              → validate_tx db hasher fuel (s ∷ rest) updates ≡ ok c)
            × IsVerdict c
            × ((c ≡ valid) ↔ TxIsCurrent state updates (s ∷ rest))
      step (false, e, i) queries others = (
        mvcc_read_conflict,
        0,
        (λ fuel h. rw (e, validate_tx)),
        inr (inl refl),
        (λ p. absurd (omega arith), λ p. absurd (false≢true (i.1 p.0.reads_current))),
      )
      step (true, e, i) (false, n, e', i') others = (
        phantom_read_conflict,
        n,
        (λ fuel h. rw (e, validate_tx) (rw (e' fuel h, validate_tx))),
        inr (inr refl),
        (λ p. absurd (omega arith), λ p. absurd (false≢true (i'.1 p.0.queries_current))),
      )
      step (true, e, i) (true, n, e', i') (c, n', e'', v, i'') = (
        c,
        n + n',
        (λ fuel h.
            rw (e, validate_tx) (rw (e' fuel (omega arith), validate_tx) (e'' fuel (omega arith)))),
        v,
        (
          λ p. (record { reads_current = i.0 refl; queries_current = i'.0 refl }, i''.0 p),
          λ p. i''.1 p.1,
        ),
      )
