-- ===== src/TxMgr.antt =====
-- core/ledger/kvledger/txmgmt/txmgr/lockbasedtxmgr/lockbased_txmgr.go, over the state database of
-- LevelDB: a block is validated, and its updates are committed. The lock is left out.
pub mod Commits
use fabric.Prelude.{
  ℕ, ◌+◌, ◌-◌, ◌%◌, ◌^◌, Option, none, some, Bool, true, false, not, length, nat_eq,
}
use fabric.Prelude.Outcome.{Outcome, ok, panic, ◌>>=◌}
use fabric.Codec.{Varint}
use fabric.Version.{Height}
use fabric.StateDb.{UpdateBatch}
use fabric.RwSet.QueryResults.{Hasher}
use fabric.Validator.Block.{Decoder, Block, validate_and_prepare_batch}
use fabric.LevelDb.Store.{LevelStore, KvBatch}
use fabric.LevelDb.Versioned.{versioned_db, apply_updates, get_latest_save_point}

-- The batch and the block are nil at first.
pub record TxMgr : Type 0 where
  pub batch : Option UpdateBatch
  pub current_block : Option Block

-- `uint64(n - 1)` of an int.
abbrev pub last_index : ℕ → ℕ
last_index n = (n + 2 ^ 64 - 1) % 2 ^ 64

module _ (v : Varint) (store : LevelStore) where
  abbrev recover_from : Option Height → ℕ → Bool × ℕ
  recover_from none last_available_block = (true, 0)
  recover_from (some savepoint) last_available_block =
      (not (nat_eq savepoint.block_num last_available_block), (savepoint.block_num + 1) % 2 ^ 64)

  unfoldable pub should_recover : ℕ → Outcome (Bool × ℕ)
  unfolding get_latest_save_point
  should_recover last_available_block = get_latest_save_point v store >>= λ savepoint.
      ok (recover_from savepoint last_available_block)

module _ (v : Varint) (store : LevelStore) (hasher : Hasher) (decoder : Decoder) (fuel : ℕ) where
  unfoldable pub validate_and_prepare : Block → Bool → TxMgr → Outcome TxMgr
  unfolding validate_and_prepare_batch
  validate_and_prepare block do_mvcc mgr =
      validate_and_prepare_batch (versioned_db v store) hasher decoder fuel do_mvcc block
      >>= λ (batch, block'). ok (record { batch = some batch; current_block = some block' })

  abbrev commit_batch : TxMgr → UpdateBatch → Option Block → Outcome (KvBatch × TxMgr)
  commit_batch mgr batch none = panic
  commit_batch mgr batch (some block) =
      apply_updates v batch
        (record { block_num = block.number; tx_num = last_index (length block.envelopes) })
      >>= λ kvs. ok (kvs, record mgr { batch = none })

  -- What is written to LevelDB, and the manager after it.
  unfoldable pub commit : TxMgr → Outcome (KvBatch × TxMgr)
  unfolding apply_updates
  commit mgr = elim mgr.batch [
    | none ↦ panic
    | some batch ↦ commit_batch mgr batch mgr.current_block
  ]

  unfoldable pub rollback : TxMgr → TxMgr
  rollback mgr = record mgr { batch = none }

  unfoldable pub commit_lost_block : Block → TxMgr → Outcome (KvBatch × TxMgr)
  unfolding validate_and_prepare commit
  commit_lost_block block mgr = validate_and_prepare block false mgr >>= commit
