-- ===== src/RwSet.antt =====
-- The read-write set of a transaction: core/ledger/kvledger/txmgmt/rwsetutil and the messages of
-- protos/ledger/rwset/kvrwset.
pub mod QueryResults
pub mod Builder
use fabric.Prelude.{ℕ, Option, none, some, Bool, true, false, List, [], ◌∷◌, nat_eq, ◌&&◌}
use fabric.Prelude.Bytes.{Bytes, bytes_eq}
use fabric.Version.{Height}

-- The message `Version` has the fields of a `Height`; a nil version is `none`.
pub record KvRead : Type 0 where
  pub key : Bytes
  pub version : Option Height

pub record KvWrite : Type 0 where
  pub key : Bytes
  pub is_delete : Bool
  pub value : Option Bytes

pub record QueryReadsMerkleSummary : Type 0 where
  pub max_degree : ℕ
  pub max_level : ℕ
  pub max_level_hashes : List Bytes

-- The `oneof` field of a range query: unset, the raw reads, or the summary of their hashes.
pub data ReadsInfo : Type 0 where
  no_reads : ReadsInfo
  raw_reads : List KvRead → ReadsInfo
  reads_merkle_hashes : QueryReadsMerkleSummary → ReadsInfo

pub record RangeQueryInfo : Type 0 where
  pub start_key : Bytes
  pub end_key : Bytes
  pub itr_exhausted : Bool
  pub reads_info : ReadsInfo

pub record NsRwSet : Type 0 where
  pub name_space : Bytes
  pub reads : List KvRead
  pub range_queries_info : List RangeQueryInfo
  pub writes : List KvWrite

abbrev pub TxRwSet : Type 0
TxRwSet = List NsRwSet

abbrev pub new_kv_read : Bytes → Option Height → KvRead
new_kv_read key version = record { key = key; version = version }

abbrev pub new_version : Option Height → Option Height
new_version none = none
new_version (some v) = some (record { block_num = v.block_num; tx_num = v.tx_num })

abbrev is_nil {ℓ} : {A : Type ℓ} → Option A → Bool
is_nil none = true
is_nil (some a) = false

unfoldable pub new_kv_write : Bytes → Option Bytes → KvWrite
new_kv_write key value = record { key = key; is_delete = is_nil value; value = value }

-- `GetRawReads().GetKvReads()`.
abbrev pub kv_reads : ReadsInfo → List KvRead
kv_reads (raw_reads rs) = rs
kv_reads _ = []

unfoldable pub equal_hashes : List Bytes → List Bytes → Bool
equal_hashes [] [] = true
equal_hashes [] (b ∷ bs) = false
equal_hashes (a ∷ as') [] = false
equal_hashes (a ∷ as') (b ∷ bs) = bytes_eq a b && equal_hashes as' bs

-- `Equal` of a summary that is not nil.
unfoldable pub equal : QueryReadsMerkleSummary → Option QueryReadsMerkleSummary → Bool
unfolding equal_hashes
equal ms none = false
equal ms (some other) =
    nat_eq ms.max_degree other.max_degree
    && nat_eq ms.max_level other.max_level
    && equal_hashes ms.max_level_hashes other.max_level_hashes
