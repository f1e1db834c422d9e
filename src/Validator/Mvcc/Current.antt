-- ===== src/Validator/Mvcc/Current.antt =====
-- What it means that a transaction read the current state: the contract of the validation.
use fabric.Prelude.{◌≡◌, Option, none, not, List, All, map}
use fabric.Prelude.Bytes.{Bytes}
use fabric.StateDb
use fabric.StateDb.{VersionedValue, VersionedKv, UpdateBatch}
use fabric.StateDb.Scan.{IsScan}
use fabric.StateDb.VersionedDb.{IsName}
use fabric.RwSet.{
  KvRead, RangeQueryInfo, NsRwSet, TxRwSet, ReadsInfo, no_reads, raw_reads, reads_merkle_hashes,
  kv_reads,
}
use fabric.Validator.Combined.Overlay.{overlay, in_query}
use fabric.Validator.Combined.RangeQuery.{IsEndKey}
use fabric.Validator.Mvcc.{committed_version}
use fabric.Validator.RangeQuery.RawReads.{to_read, HasVersion}

-- The recorded reads of a query are not summed up in a Merkle tree, and each has a version.
abbrev pub IsRawInfo : ReadsInfo → Type 0
IsRawInfo no_reads = Unit
IsRawInfo (raw_reads rs) = All HasVersion rs
IsRawInfo (reads_merkle_hashes m) = ⊥

-- Such a query, with an end key that is not empty where the range includes it.
pub record IsRaw (q : RangeQueryInfo) : Type 0 where
  pub raw : IsRawInfo q.reads_info
  pub end_ok : IsEndKey q.end_key (not q.itr_exhausted)

abbrev pub IsRawTx : TxRwSet → Type 0
IsRawTx = All (λ s. IsName s.name_space × All IsRaw s.range_queries_info)

module _ (state : Bytes → Bytes → Option VersionedValue) (updates : UpdateBatch) where
  -- No earlier transaction of the block wrote the key, and its committed version is the one read.
  pub record ReadIsCurrent (ns : Bytes) (r : KvRead) : Type 0 where
    pub not_updated : StateDb.get updates ns r.key ≡ none
    pub same_version : committed_version (state ns r.key) ≡ r.version

  -- The recorded reads are the keys and versions of the query's range, in order, in the state with
  -- the updates applied.
  pub record QueryIsCurrent (ns : Bytes) (q : RangeQueryInfo) : Type 0 where
    pub results : List VersionedKv
    pub is_scan :
        IsScan ns
          (in_query q.start_key q.end_key (not q.itr_exhausted))
          (overlay state updates ns)
          results
    pub same_results : kv_reads q.reads_info ≡ map to_read results

  pub record NsIsCurrent (s : NsRwSet) : Type 0 where
    pub reads_current : All (ReadIsCurrent s.name_space) s.reads
    pub queries_current : All (QueryIsCurrent s.name_space) s.range_queries_info

  abbrev pub TxIsCurrent : TxRwSet → Type 0
  TxIsCurrent = All NsIsCurrent
