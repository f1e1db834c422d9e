-- ===== src/Validator/Block/Loop.antt =====
-- The loop over the transactions of a block, and the batch that it prepares.
use fabric.Prelude.{
  ℕ, zero, suc, ◌<◌, ◌≡◌, refl, sym, ◌∙◌, ap, Option, none, some, Bool, true, false, not, List, [],
  ◌∷◌, arith, nat_eq, get_elem?, if◌then◌else◌,
}
use fabric.Prelude.Bytes.{Bytes}
use fabric.Prelude.Outcome.{Outcome, ok, err, panic, ◌>>=◌, >>=-eq-ok}
use fabric.StateDb
use fabric.StateDb.{VersionedValue, UpdateBatch}
use fabric.StateDb.VersionedDb.{VersionedDb}
use fabric.RwSet.QueryResults.{Hasher}
use fabric.Validator.Combined.Overlay.{overlay}
use fabric.Validator.Combined.Merge.{visible}
use fabric.Prelude.Assoc.{lookup}
use fabric.Validator.Mvcc.{valid}
use fabric.Validator.Block.{
  Decoder, Block, process_tx, process_txs, validate_and_prepare_batch, validate_endorser_tx,
  record_result, endorser_transaction, initial_flags,
}
use fabric.Validator.Block.Serial.{State, run_tx, tx_of, commits, serial}
use fabric.Validator.Block.Step.{Effect, skipped-Effect, result-Effect, endorser-Outcomes}

module _ (db : VersionedDb) (hasher : Hasher) (decoder : Decoder) (fuel : ℕ) (do_mvcc : Bool) where
  open decoder use {channel_header_type}

  -- The run of a transaction whose flag is still valid.
  open_tx :
      (number i : ℕ) (env : Bytes) (updates updates' : UpdateBatch) (flags flags' : List ℕ)
      (s : State)
      → get_elem? flags i ≡ some valid
      → (r : Outcome ℕ) → channel_header_type env ≡ r
      → (r >>= λ tx_type.
          if not (nat_eq tx_type endorser_transaction)
          then ok (updates, flags)
          else (validate_endorser_tx db hasher decoder fuel do_mvcc env updates
              >>= record_result db hasher decoder fuel do_mvcc number i flags updates))
        ≡ ok (updates', flags')
      → Effect db hasher decoder fuel do_mvcc number i env updates updates' flags flags' s
  open_tx number i env updates updates' flags flags' s e (err x) t h = cc
  open_tx number i env updates updates' flags flags' s e panic t h = cc
  open_tx number i env updates updates' flags flags' s e (ok tx_type) t h =
      by_type (nat_eq tx_type endorser_transaction) refl h
    where
      by_type :
          (b : Bool)
          → nat_eq tx_type endorser_transaction ≡ b
          → (if not b
              then ok (updates, flags)
              else (validate_endorser_tx db hasher decoder fuel do_mvcc env updates
                  >>= record_result db hasher decoder fuel do_mvcc number i flags updates))
            ≡ ok (updates', flags')
          → Effect db hasher decoder fuel do_mvcc number i env updates updates' flags flags' s
      by_type false n q =
          let eu : updates' ≡ updates = ground arith in
          let ef : flags' ≡ flags = ground arith in
          rw (eu, ef)
            (skipped-Effect db hasher decoder fuel do_mvcc number i env updates flags s
              (rw t (rw n)))
      by_type true n q =
          let ((o, code), v, q') =
            >>=-eq-ok (validate_endorser_tx db hasher decoder fuel do_mvcc env updates) _ q in
          result-Effect db hasher decoder fuel do_mvcc number i env updates updates' flags flags' s
            valid o code e (rw t n)
            (endorser-Outcomes db hasher decoder fuel do_mvcc env updates o code v) q'

  process_tx-Effect :
      (number i : ℕ) (env : Bytes) (updates updates' : UpdateBatch) (flags flags' : List ℕ)
      (s : State)
      → process_tx db hasher decoder fuel do_mvcc number i env updates flags ≡ ok (updates', flags')
      → Effect db hasher decoder fuel do_mvcc number i env updates updates' flags flags' s
  unfolding process_tx
  process_tx-Effect number i env updates updates' flags flags' s h =
      by_flag (get_elem? flags i) refl
    where
      by_flag :
          (o : Option ℕ)
          → get_elem? flags i ≡ o
          → Effect db hasher decoder fuel do_mvcc number i env updates updates' flags flags' s
      by_flag none e = ground (arith, h, e)
      by_flag (some zero) e =
          open_tx number i env updates updates' flags flags' s e (channel_header_type env) refl
            (rw (e, process_tx) at h)
      by_flag (some (suc f)) e =
          let eu : updates' ≡ updates = ground (arith, h, e) in
          let ef : flags' ≡ flags = ground (arith, h, e) in
          rw (eu, ef)
            (skipped-Effect db hasher decoder fuel do_mvcc number i env updates flags s
              (rw e (ground arith)))

  -- A later round leaves the flags before it.
  process_txs-keeps :
      (number i : ℕ) (envs : List Bytes) (updates updates' : UpdateBatch) (flags flags' : List ℕ)
      → process_txs db hasher decoder fuel do_mvcc number i envs updates flags
        ≡ ok (updates', flags')
      → (j : ℕ) → j < i
      → get_elem? flags' j ≡ get_elem? flags j
  unfolding process_txs
  process_txs-keeps number i [] updates updates' flags flags' h j l =
      let ef : flags' ≡ flags = cc in ap (λ v. get_elem? v j) ef
  process_txs-keeps number i (env ∷ envs) updates updates' flags flags' h j l =
      let ((u, f), e, e') =
        >>=-eq-ok (process_tx db hasher decoder fuel do_mvcc number i env updates flags) _ h in
      let one = process_tx-Effect number i env updates u flags f (λ _ _. none) e in
      process_txs-keeps number (suc i) envs u updates' f flags' e' j (omega arith)
      ∙ one.keeps j (λ q. omega arith)

  process_txs-serial :
      (number i : ℕ) (envs : List Bytes) (updates updates' : UpdateBatch) (flags flags' : List ℕ)
      (s : State)
      → process_txs db hasher decoder fuel do_mvcc number i envs updates flags
        ≡ ok (updates', flags')
      → overlay s updates' ≡ serial decoder number i envs flags' (overlay s updates)
  unfolding process_txs serial
  process_txs-serial number i [] updates updates' flags flags' s h = ap (overlay s) (cc)
  process_txs-serial number i (env ∷ envs) updates updates' flags flags' s h =
      let ((u, f), e, e') =
        >>=-eq-ok (process_tx db hasher decoder fuel do_mvcc number i env updates flags) _ h in
      let one = process_tx-Effect number i env updates u flags f s e in
      let kept = process_txs-keeps number (suc i) envs u updates' f flags' e' i (omega arith) in
      process_txs-serial number (suc i) envs u updates' f flags' s e'
      ∙ ap (serial decoder number (suc i) envs flags') (
          one.runs
          ∙ ap
              (λ o.
                if commits decoder env o
                then run_tx (tx_of decoder env) (record { block_num = number; tx_num = i })
                    (overlay s updates)
                else overlay s updates)
              (sym kept))

  -- The batch that a block prepares, laid over any state, is that state after the endorser
  -- transactions whose final flag is valid have run one after the other, each with its place in the
  -- block for its version. A key without a value counts as absent.
  pub validate_and_prepare_batch-serial :
      (block block' : Block) (updates : UpdateBatch) (s : State)
      → validate_and_prepare_batch db hasher decoder fuel do_mvcc block ≡ ok (updates, block')
      → overlay s updates
        ≡ serial decoder block.number 0 block.envelopes block'.txs_filter (λ ns k. visible (s ns k))
  unfolding validate_and_prepare_batch overlay StateDb.get lookup
  validate_and_prepare_batch-serial block block' updates s h =
      let (p, e, e') =
        >>=-eq-ok
          (process_txs db hasher decoder fuel do_mvcc block.number 0 block.envelopes
            StateDb.new_update_batch (initial_flags block))
          _ h in
      go p e e'
    where
      go :
          (p : UpdateBatch × List ℕ)
          → process_txs db hasher decoder fuel do_mvcc block.number 0 block.envelopes
              StateDb.new_update_batch
              (initial_flags block)
            ≡ ok p
          → ◌≡◌ {A = Outcome (UpdateBatch × Block)}
              (ok (p.0, record block { txs_filter = p.1 }))
              (ok (updates, block'))
          → overlay s updates
            ≡ serial decoder block.number 0 block.envelopes block'.txs_filter
                (λ ns k. visible (s ns k))
      go (u, f) e e' =
          let eu : updates ≡ u = cc in
          let eb : block' ≡ record block { txs_filter = f } = cc in
          let ef : block'.txs_filter ≡ f = ap (λ b. b.txs_filter) eb in
          let all : overlay s u
              ≡ serial decoder block.number 0 block.envelopes f
                  (overlay s StateDb.new_update_batch) =
            process_txs-serial block.number 0 block.envelopes StateDb.new_update_batch u
              (initial_flags block) f s e in
          rw (eu, ef) all
