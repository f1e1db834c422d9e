-- ===== src/Validator/RangeQuery/RawReads.antt =====
-- The validation of recorded raw reads says whether they are what the query yields now.
use fabric.Prelude.{◌≡◌, ◌↔◌, Option, some, Bool, true, false, ◌&&◌, List, [], ◌∷◌, arith, All, map}
use fabric.Prelude.Bytes.{bytes_eq, bytes_eq_iff}
use fabric.Prelude.Outcome.{Outcome, ok}
use fabric.Version.{Height, are_same}
use fabric.Version.Comparison.{are_same_iff}
use fabric.StateDb.{VersionedKv}
use fabric.StateDb.Scan.{Yields}
use fabric.RwSet.{KvRead}
use fabric.Validator.Combined.Steps.{Front, advance}
use fabric.Validator.RangeQuery.{compare_results, validate_results, first_result}

-- The key and the version of an item, as a read records them.
abbrev pub to_read : VersionedKv → KvRead
to_read kv = record { key = kv.key; version = kv.version }

-- A read of a key that exists has a version.
abbrev pub HasVersion : KvRead → Type 0
HasVersion r = (v : Height) × (r.version ≡ some v)

pub reads_match : List KvRead → List VersionedKv → Bool
reads_match [] [] = true
reads_match [] (kv ∷ l) = false
reads_match (r ∷ rs) [] = false
reads_match (r ∷ rs) (kv ∷ l) =
    bytes_eq kv.key r.key && are_same kv.version r.version && reads_match rs l

pub reads_match_iff :
    (rs : List KvRead) (l : List VersionedKv) → (reads_match rs l ≡ true) ↔ (rs ≡ map to_read l)
unfolding reads_match
reads_match_iff [] [] = ground arith
reads_match_iff [] (kv ∷ l) = ground arith
reads_match_iff (r ∷ rs) [] = ground arith
reads_match_iff (r ∷ rs) (kv ∷ l) =
    ground
      (arith, reads_match_iff rs l, bytes_eq_iff kv.key r.key, are_same_iff kv.version r.version)

module _ {S : Type 0} (next : S → Outcome (Option VersionedKv × S)) where
  compare_results-match :
      (rs : List KvRead) (l : List VersionedKv) (result : Option VersionedKv) (itr : S)
      → All HasVersion rs
      → Front next result itr l
      → compare_results next rs result itr ≡ ok (reads_match rs l)
  unfolding compare_results reads_match
  compare_results-match [] [] result itr v e = rw (e, compare_results)
  compare_results-match [] (kv ∷ l) result itr v (e, y) = rw (e, compare_results)
  compare_results-match (r ∷ rs) [] result itr v e = rw (e, compare_results)
  compare_results-match (r ∷ rs) (kv ∷ l) result itr v (e, y) =
      let (item, itr', s, front) = advance next itr l y in
      let (h, eh) = v.0 in
      rw (e, compare_results)
        (ground (arith, s, eh, compare_results-match rs l item itr' v.1 front))

  pub validate_results-match :
      (rs : List KvRead) (l : List VersionedKv) (itr : S)
      → All HasVersion rs
      → Yields next itr l
      → validate_results next rs itr ≡ ok (reads_match rs l)
  unfolding validate_results
  validate_results-match rs l itr v y =
      let (item, itr', s, front) = advance next itr l y in rw s (by_reads rs l item itr' v front)
    where
      by_reads :
          (rs : List KvRead) (l : List VersionedKv) (item : Option VersionedKv) (itr' : S)
          → All HasVersion rs
          → Front next item itr' l
          → first_result next rs item itr' ≡ ok (reads_match rs l)
      by_reads [] [] item itr' v e = unfold reads_match in rw e
      by_reads [] (kv ∷ l) item itr' v e = unfold reads_match in rw (e.0)
      by_reads (r ∷ rs) l item itr' v front = compare_results-match (r ∷ rs) l item itr' v front

  -- For recorded reads with versions and an iterator that yields `l`, the validation of raw reads
  -- returns, and accepts exactly when the reads are the keys and versions of `l`, in order.
  pub validate_results_iff :
      (rs : List KvRead) (l : List VersionedKv) (itr : S)
      → All HasVersion rs
      → Yields next itr l
      → (b : Bool) × (validate_results next rs itr ≡ ok b) × ((b ≡ true) ↔ (rs ≡ map to_read l))
  validate_results_iff rs l itr v y =
      (reads_match rs l, validate_results-match rs l itr v y, reads_match_iff rs l)
