-- ===== src/Validator/RangeQuery.antt =====
-- core/ledger/kvledger/txmgmt/validator/statebasedval/range_query_validator.go: the results of a
-- range query as they were simulated, against the results of the same query now.
pub mod RawReads
use fabric.Prelude.{
  ℕ, zero, suc, ◌+◌, ◌-◌, ◌%◌, Option, none, some, Bool, true, false, not, ◌&&◌, List, [], ◌∷◌,
  nat_eq, ltb, length, get_elem?, if◌then◌else◌,
}
use fabric.Prelude.Bytes.{Bytes, bytes_eq}
use fabric.Prelude.Outcome.{Outcome, ok, err, panic, ◌>>=◌}
use fabric.Version.{Height, are_same}
use fabric.StateDb.{VersionedKv}
use fabric.RwSet.{KvRead, QueryReadsMerkleSummary, equal, new_kv_read}
use fabric.RwSet.QueryResults.{
  Hasher, RangeQueryResultsHelper, new_range_query_results_helper, add_result, get_merkle_summary,
  done_results,
}

-- The iterator is any that has a `Next`.
module _ {S : Type 0} (next : S → Outcome (Option VersionedKv × S)) where
  -- `convertToVersionHeight` reads the fields of the version, and a nil one panics.
  abbrev same_version : Option Height → Option Height → Outcome Bool
  same_version current none = panic
  same_version current (some v) = ok (are_same current (some v))

  abbrev is_nil : Option VersionedKv → Bool
  is_nil none = true
  is_nil (some kv) = false

  -- The loop over the recorded reads, with `result` the current item of the iterator.
  unfoldable pub compare_results : List KvRead → Option VersionedKv → S → Outcome Bool
  compare_results [] none itr = ok true
  compare_results [] (some extra) itr = ok false
  compare_results (kv_read ∷ rest) none itr = ok false
  compare_results (kv_read ∷ rest) (some kv) itr =
      if not (bytes_eq kv.key kv_read.key)
      then ok false
      else (same_version kv.version kv_read.version >>= λ same.
          if not same
          then ok false
          else (next itr >>= λ (result, itr'). compare_results rest result itr'))

  abbrev first_result : List KvRead → Option VersionedKv → S → Outcome Bool
  first_result [] result itr = ok (is_nil result)
  first_result (r ∷ rs) result itr = compare_results (r ∷ rs) result itr

  unfoldable pub validate_results : List KvRead → S → Outcome Bool
  unfolding compare_results
  validate_results rq_results itr =
      next itr >>= λ (result, itr'). first_result rq_results result itr'

  abbrev same_hash : Option Bytes → Option Bytes → Outcome Bool
  same_hash (some a) (some b) = ok (bytes_eq a b)
  same_hash _ _ = panic

  -- What the loop does with the summary after one more result: `none` is to go on, with the number
  -- of the hashes that have matched. An index out of bounds panics.
  unfoldable pub check_hashes :
      QueryReadsMerkleSummary → Option QueryReadsMerkleSummary → ℕ → Outcome (Option Bool × ℕ)
  check_hashes in_merkle none matched = panic
  check_hashes in_merkle (some merkle) matched =
      if ltb merkle.max_level in_merkle.max_level
      then ok (none, matched)
      else if nat_eq matched (length merkle.max_level_hashes)
      then ok (none, matched)
      else if ltb (length in_merkle.max_level_hashes) (length merkle.max_level_hashes)
      then ok (some false, matched)
      else (same_hash (get_elem? merkle.max_level_hashes matched)
            (get_elem? in_merkle.max_level_hashes matched)
          >>= λ same. ok (if same then none else some false, matched + 1))

  module _ (hasher : Hasher) where
    -- The error of `AddResult` is dropped.
    abbrev after_result :
        QueryReadsMerkleSummary
        → RangeQueryResultsHelper
        → VersionedKv
        → ℕ
        → Outcome (RangeQueryResultsHelper × Option Bool × ℕ)
    after_result in_merkle helper kv matched = do
      (helper', _) ← add_result hasher helper (new_kv_read kv.key kv.version)
      merkle ← get_merkle_summary hasher helper'
      (verdict, matched') ← check_hashes in_merkle merkle matched
      ok (helper', verdict, matched')

    -- A helper that `init` could not make is nil, and panics when it is used. Each round takes one
    -- item of the iterator; at the bound on the rounds the run stops in a panic.
    unfoldable pub validate_hashes :
        ℕ → QueryReadsMerkleSummary → Option RangeQueryResultsHelper → ℕ → S → Outcome Bool
    unfolding check_hashes
    validate_hashes zero in_merkle helper matched itr = panic
    validate_hashes (suc fuel) in_merkle none matched itr = next itr >>= λ _. panic
    validate_hashes (suc fuel) in_merkle (some helper) matched itr = next itr >>= λ (result, itr').
        elim result [
          | none ↦ done_results hasher helper >>= λ (_, merkle). ok (equal in_merkle merkle)
          | some kv ↦ after_result in_merkle helper kv matched >>= λ (helper', verdict, matched').
              elim verdict [
                | none ↦ validate_hashes fuel in_merkle (some helper') matched' itr'
                | some b ↦ ok b
              ]
        ]

    abbrev ok_or_nil : Outcome RangeQueryResultsHelper → Option RangeQueryResultsHelper
    ok_or_nil (ok helper) = some helper
    ok_or_nil _ = none

    -- `init`, whose error the caller drops, and the validation.
    unfoldable pub validate_summary : ℕ → QueryReadsMerkleSummary → S → Outcome Bool
    unfolding validate_hashes
    validate_summary fuel in_merkle itr =
        validate_hashes fuel in_merkle
          (ok_or_nil (new_range_query_results_helper true in_merkle.max_degree)) 0 itr
