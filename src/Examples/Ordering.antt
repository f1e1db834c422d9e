-- ===== src/Examples/Ordering.antt =====
-- Concrete runs of the block cutter, with a Boolean for a committer: whether it is isolated.
use fabric.Prelude.{◌≡◌, ◌≢◌, refl, none, some, Bool, true, false, List, [], ◌∷◌, ◌++◌, arith}
use fabric.Prelude.Bytes.{codes}
use fabric.Prelude.Outcome.{ok}
use fabric.Orderer.Filter.{
  Envelope, BatchSize, Rule, apply, accept_rule, empty_reject_rule, max_bytes_rule,
}
use fabric.Orderer.Cutter.{Receiver, Cutting, enqueue, ordered}
use fabric.Orderer.Cutter.Flow.{concat}
use fabric.Orderer.Cutter.Runs.{run, passed, committers, run-order}
use fabric.Orderer.Cutter.Bounds.{IsBatchSize, IsReceiver, IsStep, total, ordered-IsStep}

abbrev pub isolated : Bool → Bool
isolated b = b

abbrev pub batch_size : BatchSize
batch_size = record { max_message_count = 2; absolute_max_bytes = 100; preferred_max_bytes = 10 }

abbrev pub filters : List (Rule Bool)
filters = empty_reject_rule Bool ∷ max_bytes_rule Bool batch_size ∷ accept_rule Bool false ∷ []

abbrev pub small : Envelope
small = record { payload = some (codes "abcd"); signature = codes "s" }

abbrev empty : Envelope
empty = record { payload = none; signature = [] }

abbrev pub large : Envelope
large = record { payload = some (codes "abcdefghijkl"); signature = codes "s" }

abbrev fresh : Receiver Bool
fresh = record { pending_batch = []; pending_batch_size_bytes = 0; pending_committers = [] }

abbrev one_pending : Receiver Bool
one_pending = record {
  pending_batch = small ∷ [];
  pending_batch_size_bytes = 5;
  pending_committers = false ∷ [];
}

two_batches :
    ordered Bool isolated batch_size filters large one_pending
    ≡ ok (
      record {
        message_batches = (small ∷ []) ∷ (large ∷ []) ∷ [];
        committer_batches = (false ∷ []) ∷ (false ∷ []) ∷ [];
        valid_tx = true;
        pending = false;
      },
      fresh,
    )
unfolding ordered empty_reject_rule max_bytes_rule accept_rule
two_batches = refl

pub filters-ne-none : (m : Envelope) → apply Bool filters m ≢ ok none
unfolding apply empty_reject_rule max_bytes_rule accept_rule
filters-ne-none m = ground arith

run-order_example :
    (bs : List (List Envelope)) × (cs : List (List Bool)) × (r' : Receiver Bool) × (run Bool
        isolated batch_size filters
        (small ∷ empty ∷ large ∷ small ∷ [])
        fresh
      ≡ ok (bs, cs, r'))
    × (concat bs ++ r'.pending_batch
        ≡ [] ++ passed Bool isolated batch_size filters (small ∷ empty ∷ large ∷ small ∷ []))
    × (concat cs ++ r'.pending_committers
        ≡ [] ++ committers Bool isolated batch_size filters (small ∷ empty ∷ large ∷ small ∷ []))
run-order_example =
    run-order Bool isolated batch_size filters (small ∷ empty ∷ large ∷ small ∷ []) fresh
      filters-ne-none refl

batch_size-IsBatchSize : IsBatchSize batch_size
batch_size-IsBatchSize = record {
  some_messages = omega arith;
  count_fits = omega arith;
  no_wrap = omega arith;
}

one_pending-IsReceiver : IsReceiver Bool batch_size one_pending
unfolding total
one_pending-IsReceiver = record {
  count_below = omega arith;
  size_exact = refl;
  size_ok = omega arith;
}

abbrev full : Cutting Bool
full = record {
  message_batches = (small ∷ small ∷ []) ∷ [];
  committer_batches = (false ∷ false ∷ []) ∷ [];
  valid_tx = true;
  pending = false;
}

ordered-IsStep_example : IsStep Bool isolated batch_size (full, fresh)
unfolding ordered empty_reject_rule max_bytes_rule accept_rule
ordered-IsStep_example =
    ordered-IsStep Bool isolated batch_size filters small one_pending fresh full
      batch_size-IsBatchSize one_pending-IsReceiver refl refl

-- A preferred size at the end of uint32, with a receiver that has no room left: the sum wraps, so the
-- message joins the batch, whose recorded size is then 4.
abbrev wide : BatchSize
wide = record {
  max_message_count = 3;
  absolute_max_bytes = 4294967295;
  preferred_max_bytes = 4294967295;
}

size-wraps :
    enqueue Bool isolated wide small false (record {
      pending_batch = large ∷ [];
      pending_batch_size_bytes = 4294967295;
      pending_committers = false ∷ [];
    })
    ≡ (
      record { message_batches = []; committer_batches = []; valid_tx = true; pending = true },
      record {
        pending_batch = large ∷ small ∷ [];
        pending_batch_size_bytes = 4;
        pending_committers = false ∷ false ∷ [];
      },
    )
unfolding enqueue
size-wraps = refl
