-- ===== src/TxMgr/Commits.antt =====
-- A validated block that is committed.
use mathlib.Core.Path.{ap₂}
use fabric.Prelude.{
  ℕ, ◌+◌, ◌%◌, ◌^◌, ◌<◌, ◌≡◌, ◌≢◌, refl, sym, ap, ◌∙◌, none, some, Bool, false, [], length, arith,
}
use fabric.Prelude.Bytes.{Bytes}
use fabric.Prelude.Outcome.{Outcome, ok, >>=-eq-ok}
use fabric.Codec.{Varint}
use fabric.Version.{Height, new_height_from_bytes}
use fabric.StateDb
use fabric.StateDb.{UpdateBatch, VersionedValue}
use fabric.StateDb.VersionedDb.{IsName}
use fabric.RwSet.QueryResults.{Hasher}
use fabric.Validator.Combined.Merge.{visible}
use fabric.Validator.Block.{Decoder, Block, process_txs, initial_flags, validate_and_prepare_batch}
use fabric.Validator.Block.Serial.{serial}
use fabric.Validator.Block.Loop.{validate_and_prepare_batch-serial}
use fabric.LevelDb.Store.{LevelStore, Contents, KvBatch, Holds, written}
use fabric.LevelDb.Versioned.{versioned_db, get_latest_save_point, save_point_key}
use fabric.LevelDb.Versioned.Reads.{state_of, IsEncoded}
use fabric.LevelDb.Versioned.Updates.{CanApply, apply_updates-overlay}
use fabric.TxMgr.{TxMgr, last_index, should_recover, validate_and_prepare, commit}

module _ (v : Varint) (store : LevelStore) (hasher : Hasher) (decoder : Decoder) (fuel : ℕ) where
  validate_and_prepare_batch-number :
      (do_mvcc : Bool) (block block' : Block) (updates : UpdateBatch)
      → validate_and_prepare_batch (versioned_db v store) hasher decoder fuel do_mvcc block
        ≡ ok (updates, block')
      → block'.number ≡ block.number
  unfolding validate_and_prepare_batch
  validate_and_prepare_batch-number do_mvcc block block' updates e =
      let (p, q, e') =
        >>=-eq-ok
          (process_txs (versioned_db v store) hasher decoder fuel do_mvcc block.number 0
            block.envelopes StateDb.new_update_batch (initial_flags block))
          _ e in
      ap (λ b. b.number) (sym (same_block e'))
    where
      same_block :
          {u : UpdateBatch} {b : Block}
          → ◌≡◌ {A = Outcome (UpdateBatch × Block)} (ok (u, b)) (ok (updates, block'))
          → b ≡ block'
      same_block g = cc

  -- A savepoint that reads back as a height of the block.
  recovered :
      (store' : LevelStore) (contents : Contents) (saved : Bytes) (n saved_number tx_num number : ℕ)
      → Holds store' contents
      → contents save_point_key ≡ some saved
      → new_height_from_bytes v saved ≡ ok (record { block_num = saved_number; tx_num = tx_num }, n)
      → saved_number ≡ number
      → should_recover v store' number ≡ ok (false, (number + 1) % 2 ^ 64)
  unfolding should_recover get_latest_save_point
  recovered store' contents saved n saved_number tx_num number h w back same =
      rw (h.get_ok save_point_key, w, back, same) (ground arith)

  -- What the contents stand for after a block is committed, and where a recovery starts.
  pub record IsCommitted (contents : Contents) (block block' : Block) (kvs : KvBatch) : Type 1 where
    pub encoded : IsEncoded v (written contents kvs)
    pub state_ok :
        (ns k : Bytes)
        → IsName ns
        → ns ≢ []
        → state_of v (written contents kvs) ns k
          ≡ serial decoder block.number 0 block.envelopes block'.txs_filter
              (λ n j. visible (state_of v contents n j))
              ns
              k
    pub recovers :
        (store' : LevelStore)
        → Holds store' (written contents kvs)
        → should_recover v store' block.number ≡ ok (false, (block.number + 1) % 2 ^ 64)

  -- If a block with a number of uint64 was validated over a LevelDB whose values decode, and its batch
  -- can be applied, then `Commit` writes a batch and forgets the one that was prepared. In a namespace
  -- with a nonempty name without zero bytes the state is then the one before after the valid
  -- transactions have run one after the other, the values decode still, and a recovery from the
  -- savepoint finds nothing to do for the block and starts at the next one.
  pub commit-IsCommitted :
      (contents : Contents) (do_mvcc : Bool) (block block' : Block) (updates : UpdateBatch)
      (mgr mgr' : TxMgr)
      → IsEncoded v contents
      → validate_and_prepare v store hasher decoder fuel block do_mvcc mgr ≡ ok mgr'
      → mgr'.batch ≡ some updates
      → mgr'.current_block ≡ some block'
      → CanApply updates
      → block.number < 2 ^ 64
      → (kvs : KvBatch) × (commit v store hasher decoder fuel mgr'
          ≡ ok (kvs, record mgr' { batch = none }))
        × IsCommitted contents block block' kvs
  unfolding validate_and_prepare commit
  commit-IsCommitted contents do_mvcc block block' updates mgr mgr' enc e b c can fits =
      let (p, q, e') =
        >>=-eq-ok
          (validate_and_prepare_batch (versioned_db v store) hasher decoder fuel do_mvcc block) _
          e in
      finish p.0 p.1 q (same_mgr e')
    where
      same_mgr : {a m : TxMgr} → ok a ≡ ok m → a ≡ m
      same_mgr g = cc

      some-same : {A : Type 0} {x y : A} → some x ≡ some y → x ≡ y
      some-same g = cc

      finish :
          (u : UpdateBatch) (x : Block)
          → validate_and_prepare_batch (versioned_db v store) hasher decoder fuel do_mvcc block
            ≡ ok (u, x)
          → record { batch = some u; current_block = some x } ≡ mgr'
          → (kvs : KvBatch) × (commit v store hasher decoder fuel mgr'
              ≡ ok (kvs, record mgr' { batch = none }))
            × IsCommitted contents block block' kvs
      finish u x q m =
          let same_u : u ≡ updates = some-same (ap (λ t. t.batch) m ∙ b) in
          let same_x : x ≡ block' = some-same (ap (λ t. t.current_block) m ∙ c) in
          let prepared : validate_and_prepare_batch (versioned_db v store) hasher decoder fuel
                do_mvcc block
              ≡ ok (updates, block') =
            q ∙ ap₂ (λ a w. ok (a, w)) same_u same_x in
          let number = validate_and_prepare_batch-number do_mvcc block block' updates prepared in
          let height : Height = record {
            block_num = block'.number;
            tx_num = last_index (length block'.envelopes);
          } in
          let (kvs, applied, enc', st, saved, w, n, back) =
            apply_updates-overlay v contents updates height enc can
              (record { block_fits = rw number fits; tx_fits = omega arith }) in
          (
            kvs,
            rw (b, c, applied) refl,
            record {
              encoded = enc';
              state_ok = λ ns k named ne.
                  st ns k named ne
                  ∙ ap (λ f. f ns k)
                      (validate_and_prepare_batch-serial (versioned_db v store) hasher decoder fuel
                        do_mvcc block block' updates (state_of v contents) prepared);
              recovers = λ store' h.
                  recovered store' (written contents kvs) saved n block'.number height.tx_num
                    block.number h w back number;
            },
          )
