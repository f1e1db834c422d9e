-- ===== src/Validator/Block.antt =====
-- `ValidateAndPrepareBatch` of state_based_validator.go and the flags of
-- core/ledger/util/txvalidationflags.go: the transactions of a block in order, and the updates of
-- those that are valid.
pub mod Serial
pub mod Step
pub mod Loop
use fabric.Prelude.{
  ℕ, zero, suc, ◌+◌, ◌%◌, ◌^◌, Option, none, some, Bool, true, false, not, List, [], ◌∷◌, nat_eq,
  length, get_elem?, set, replicate, if◌then◌else◌,
}
use fabric.Prelude.Bytes.{Bytes}
use fabric.Prelude.Outcome.{Outcome, ok, err, panic, ◌>>=◌}
use fabric.Version.{Height}
use fabric.StateDb
use fabric.StateDb.{UpdateBatch}
use fabric.StateDb.VersionedDb.{VersionedDb}
use fabric.RwSet.{KvWrite, NsRwSet, TxRwSet}
use fabric.RwSet.QueryResults.{Hasher}
use fabric.Validator.Mvcc.{valid, validate_tx}

abbrev pub nil_txaction : ℕ
nil_txaction = 16

abbrev pub invalid_other_reason : ℕ
invalid_other_reason = 255

abbrev pub endorser_transaction : ℕ
endorser_transaction = 3

-- The decoding of the protocol buffers: the type in the channel header of an envelope
-- (`GetEnvelopeFromBlock`, `GetPayload` and `UnmarshalChannelHeader`), the results in its action
-- (`GetActionFromEnvelope`), and the read-write set in these (`FromProtoBytes`).
pub record Decoder : Type 0 where
  pub channel_header_type : Bytes → Outcome ℕ
  pub action_results : Bytes → Outcome Bytes
  pub from_proto_bytes : Bytes → Outcome TxRwSet

pub record Block : Type 0 where
  pub number : ℕ
  pub envelopes : List Bytes
  pub txs_filter : List ℕ

-- A flag is stored as a uint8.
unfoldable pub set_flag : List ℕ → ℕ → ℕ → List ℕ
set_flag flags tx_index flag = set flags tx_index (flag % 2 ^ 8)

abbrev pub write : Bytes → Height → KvWrite → UpdateBatch → Outcome UpdateBatch
write ns height kv_write batch =
    if kv_write.is_delete
    then ok (StateDb.delete batch ns kv_write.key (some height))
    else StateDb.put batch ns kv_write.key kv_write.value (some height)

unfoldable pub add_writes : Bytes → Height → List KvWrite → UpdateBatch → Outcome UpdateBatch
add_writes ns height [] batch = ok batch
add_writes ns height (w ∷ ws) batch = write ns height w batch >>= add_writes ns height ws

unfoldable pub add_write_set_to_batch : TxRwSet → Height → UpdateBatch → Outcome UpdateBatch
unfolding add_writes
add_write_set_to_batch [] height batch = ok batch
add_write_set_to_batch (s ∷ rest) height batch =
    add_writes s.name_space height s.writes batch >>= add_write_set_to_batch rest height

-- A block without a filter gets one in which every transaction is valid.
abbrev pub initial_flags : Block → List ℕ
initial_flags block = elim block.txs_filter [
  | [] ↦ replicate (length block.envelopes) valid
  | f ∷ fs ↦ f ∷ fs
]

module _ (db : VersionedDb) (hasher : Hasher) (decoder : Decoder) (fuel : ℕ) (do_mvcc : Bool) where
  open decoder use {channel_header_type, action_results, from_proto_bytes}

  abbrev pub verdict_of : TxRwSet → Outcome ℕ → Outcome (Option TxRwSet × ℕ)
  verdict_of tx (ok code) = ok (if nat_eq code valid then some tx else none, code)
  verdict_of tx (err e) = err e
  verdict_of tx panic = panic

  abbrev pub after_decoding : Outcome TxRwSet → UpdateBatch → Outcome (Option TxRwSet × ℕ)
  after_decoding (err e) updates = ok (none, invalid_other_reason)
  after_decoding panic updates = panic
  after_decoding (ok tx) updates =
      if do_mvcc then verdict_of tx (validate_tx db hasher fuel tx updates) else ok (some tx, valid)

  -- The read-write set of a transaction that may commit, and the code.
  unfoldable pub validate_endorser_tx : Bytes → UpdateBatch → Outcome (Option TxRwSet × ℕ)
  unfolding validate_tx
  validate_endorser_tx env_bytes updates = elim (action_results env_bytes) [
    | ok results ↦ after_decoding (from_proto_bytes results) updates
    | err e ↦ ok (none, nil_txaction)
    | panic ↦ panic
  ]

  -- What a validated transaction leaves.
  unfoldable pub record_result :
      ℕ → ℕ → List ℕ → UpdateBatch → Option TxRwSet × ℕ → Outcome (UpdateBatch × List ℕ)
  unfolding set_flag add_write_set_to_batch
  record_result number tx_index flags updates (none, code) =
      ok (updates, set_flag flags tx_index code)
  record_result number tx_index flags updates (some tx, code) =
      add_write_set_to_batch tx (record { block_num = number; tx_num = tx_index }) updates
      >>= λ updates'. ok (updates', set_flag (set_flag flags tx_index code) tx_index valid)

  -- One round of the loop. A filter that is too short panics.
  unfoldable pub process_tx : ℕ → ℕ → Bytes → UpdateBatch → List ℕ → Outcome (UpdateBatch × List ℕ)
  unfolding validate_endorser_tx record_result
  process_tx number tx_index env_bytes updates flags = elim (get_elem? flags tx_index) [
    | none ↦ panic
    | some flag ↦
        if not (nat_eq flag valid)
        then ok (updates, flags)
        else (channel_header_type env_bytes >>= λ tx_type.
            if not (nat_eq tx_type endorser_transaction)
            then ok (updates, flags)
            else (validate_endorser_tx env_bytes updates
                >>= record_result number tx_index flags updates))
  ]

  unfoldable pub process_txs :
      ℕ → ℕ → List Bytes → UpdateBatch → List ℕ → Outcome (UpdateBatch × List ℕ)
  unfolding process_tx
  process_txs number tx_index [] updates flags = ok (updates, flags)
  process_txs number tx_index (env ∷ envs) updates flags =
      process_tx number tx_index env updates flags >>= λ (updates', flags').
      process_txs number (suc tx_index) envs updates' flags'

  -- The batch of updates, and the block with its filter.
  unfoldable pub validate_and_prepare_batch : Block → Outcome (UpdateBatch × Block)
  unfolding process_txs
  validate_and_prepare_batch block =
      process_txs block.number 0 block.envelopes StateDb.new_update_batch (initial_flags block)
      >>= λ (updates, flags). ok (updates, record block { txs_filter = flags })
