-- ===== src/Orderer/Solo.antt =====
-- The consenter of one process: orderer/solo/consensus.go, over the block cutter.
pub mod Reachable
use fabric.Prelude.{Bool, true, false, not, ◌&&◌, List, [], ◌∷◌, ◌++◌, if◌then◌else◌, ◌≡◌}
use fabric.Prelude.Outcome.{Outcome, ok, panic, ◌>>=◌}
use fabric.Orderer.Filter.{Envelope, BatchSize, Rule}
use fabric.Orderer.Cutter.{Receiver, new_receiver, cut, ordered}

-- A block that `CreateNextBlock` and `WriteBlock` have appended to the ledger.
pub record Block (C : Type 0) : Type 0 where
  pub batch : List Envelope
  pub committers : List C

-- `timer` tells that the timer is not nil.
pub record Chain (C : Type 0) : Type 0 where
  pub receiver : Receiver C
  pub timer : Bool
  pub ledger : List (Block C)

abbrev pub is_nil {ℓ} : {A : Type ℓ} → List A → Bool
is_nil [] = true
is_nil (x ∷ xs) = false

module _ (C : Type 0) (isolated : C → Bool) (batch_size : BatchSize) (filters : List (Rule C)) where
  unfoldable pub new_chain : Chain C
  unfolding new_receiver
  new_chain = record { receiver = new_receiver C isolated; timer = false; ledger = [] }

  -- `committers[i]` past the end panics.
  unfoldable pub write_blocks :
      List (List Envelope) → List (List C) → List (Block C) → Outcome (List (Block C))
  write_blocks [] committers ledger = ok ledger
  write_blocks (batch ∷ batches) [] ledger = panic
  write_blocks (batch ∷ batches) (cs ∷ committers) ledger =
      write_blocks batches committers (ledger ++ record { batch = batch; committers = cs } ∷ [])

  -- A message from the channel.
  unfoldable pub on_message : Envelope → Chain C → Outcome (Chain C)
  unfolding ordered write_blocks
  on_message msg ch = ordered C isolated batch_size filters msg ch.receiver >>= λ (c, receiver).
      if c.valid_tx && is_nil c.message_batches && not ch.timer
      then ok (record ch { receiver = receiver; timer = true })
      else write_blocks c.message_batches c.committer_batches ch.ledger >>= λ ledger. ok (record {
        receiver = receiver;
        timer = is_nil c.message_batches && ch.timer;
        ledger = ledger;
      })

  abbrev write_pending : List Envelope × List C → List (Block C) → List (Block C)
  write_pending ([], committers) ledger = ledger
  write_pending (m ∷ batch, committers) ledger =
      ledger ++ record { batch = m ∷ batch; committers = committers } ∷ []

  -- The timer has expired.
  unfoldable pub on_timer : Chain C → Chain C
  on_timer ch =
      let (batch, receiver) = cut C isolated ch.receiver in
      record { receiver = receiver; timer = false; ledger = write_pending batch ch.ledger }

  -- The chain after it has received some messages; a nil timer never expires.
  pub data Reaches : List Envelope → Chain C → Type 0 where
    start : Reaches [] new_chain
    message :
        {ms : List Envelope} {s s' : Chain C} (m : Envelope)
        → Reaches ms s
        → on_message m s ≡ ok s'
        → Reaches (ms ++ m ∷ []) s'
    expiry :
        {ms : List Envelope} {s : Chain C} → Reaches ms s → s.timer ≡ true → Reaches ms (on_timer s)
