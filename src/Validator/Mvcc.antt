-- ===== src/Validator/Mvcc.antt =====
-- core/ledger/kvledger/txmgmt/validator/statebasedval/state_based_validator.go: the reads of one
-- transaction against the committed state and the updates of the block's earlier transactions.
pub mod Current
pub mod Reads
pub mod Correct
use fabric.Prelude.{ℕ, Option, none, some, Bool, true, false, not, List, [], ◌∷◌, if◌then◌else◌}
use fabric.Prelude.Bytes.{Bytes}
use fabric.Prelude.Outcome.{Outcome, ok, ◌>>=◌}
use fabric.Version.{Height, are_same}
use fabric.StateDb
use fabric.StateDb.{VersionedValue, UpdateBatch}
use fabric.StateDb.VersionedDb.{VersionedDb}
use fabric.RwSet.{
  KvRead, RangeQueryInfo, NsRwSet, TxRwSet, ReadsInfo, no_reads, raw_reads, reads_merkle_hashes,
  new_version, kv_reads,
}
use fabric.RwSet.QueryResults.{Hasher}
use fabric.Validator.Combined
use fabric.Validator.Combined.{new_combined_iterator}
use fabric.Validator.RangeQuery.{validate_results, validate_summary}

-- The values of `TxValidationCode` that the validator sets.
abbrev pub valid : ℕ
valid = 0

abbrev pub mvcc_read_conflict : ℕ
mvcc_read_conflict = 11

abbrev pub phantom_read_conflict : ℕ
phantom_read_conflict = 12

abbrev pub committed_version : Option VersionedValue → Option Height
committed_version none = none
committed_version (some vv) = vv.version

module _ (db : VersionedDb) where
  unfoldable pub validate_kv_read : Bytes → KvRead → UpdateBatch → Outcome Bool
  validate_kv_read ns kv_read updates =
      if StateDb.exists updates ns kv_read.key then ok false else do
        versioned_value ← db.get_state ns kv_read.key
        ok (are_same (committed_version versioned_value) (new_version kv_read.version))

  unfoldable pub validate_read_set : Bytes → List KvRead → UpdateBatch → Outcome Bool
  unfolding validate_kv_read
  validate_read_set ns [] updates = ok true
  validate_read_set ns (r ∷ rs) updates = validate_kv_read ns r updates >>= λ v.
      if not v then ok false else validate_read_set ns rs updates

  -- `fuel` bounds the rounds of the loops over the combined iterator.
  module _ (hasher : Hasher) (fuel : ℕ) where
    unfoldable pub validate_range_query : Bytes → RangeQueryInfo → UpdateBatch → Outcome Bool
    unfolding validate_results validate_summary
    validate_range_query ns rqi updates =
        new_combined_iterator db updates ns rqi.start_key rqi.end_key (not rqi.itr_exhausted)
        >>= λ itr. elim rqi.reads_info [
          | no_reads ↦ validate_results (Combined.next db fuel) [] itr
          | raw_reads rs ↦ validate_results (Combined.next db fuel) rs itr
          | reads_merkle_hashes m ↦ validate_summary (Combined.next db fuel) hasher fuel m itr
        ]

    unfoldable pub validate_range_queries : Bytes → List RangeQueryInfo → UpdateBatch → Outcome Bool
    unfolding validate_range_query
    validate_range_queries ns [] updates = ok true
    validate_range_queries ns (q ∷ qs) updates = validate_range_query ns q updates >>= λ v.
        if not v then ok false else validate_range_queries ns qs updates

    unfoldable pub validate_tx : TxRwSet → UpdateBatch → Outcome ℕ
    unfolding validate_read_set validate_range_queries
    validate_tx [] updates = ok valid
    validate_tx (s ∷ rest) updates = validate_read_set s.name_space s.reads updates >>= λ v.
        if not v
        then ok mvcc_read_conflict
        else (validate_range_queries s.name_space s.range_queries_info updates >>= λ v'.
            if not v' then ok phantom_read_conflict else validate_tx rest updates)
