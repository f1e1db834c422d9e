-- ===== src/Orderer/Cutter.antt =====
-- The block cutter of the ordering service: orderer/common/blockcutter/blockcutter.go.
pub mod Bounds
pub mod Flow
pub mod Runs
use fabric.Prelude.{
  ℕ, ◌+◌, ◌%◌, ◌^◌, none, some, Bool, true, false, ◌||◌, List, [], ◌∷◌, ◌++◌, length, ltb, leb,
  if◌then◌else◌,
}
use fabric.Prelude.Outcome.{Outcome, ok, err, panic}
use fabric.Orderer.Filter.{Envelope, BatchSize, Rule, apply, message_size_bytes}

pub record Receiver (C : Type 0) : Type 0 where
  pub pending_batch : List Envelope
  pub pending_batch_size_bytes : ℕ
  pub pending_committers : List C

-- The four results of `Ordered`.
pub record Cutting (C : Type 0) : Type 0 where
  pub message_batches : List (List Envelope)
  pub committer_batches : List (List C)
  pub valid_tx : Bool
  pub pending : Bool

module _ (C : Type 0) (isolated : C → Bool) where
  unfoldable pub new_receiver : Receiver C
  new_receiver = record {
    pending_batch = [];
    pending_batch_size_bytes = 0;
    pending_committers = [];
  }

  -- `Cut`: the receiver that is left; the batch is what was pending.
  abbrev pub cut : Receiver C → (List Envelope × List C) × Receiver C
  cut r = (
    (r.pending_batch, r.pending_committers),
    record { pending_batch = []; pending_batch_size_bytes = 0; pending_committers = [] },
  )

  -- The pending batch and its committers join the batches cut so far.
  abbrev pub append_cut : Receiver C → Cutting C → Cutting C × Receiver C
  append_cut r c =
      let ((batch, committers), r') = cut r in
      (
        record c {
          message_batches = c.message_batches ++ (batch ∷ []);
          committer_batches = c.committer_batches ++ (committers ∷ []);
        },
        r',
      )

  abbrev accepted : Cutting C
  accepted = record {
    message_batches = [];
    committer_batches = [];
    valid_tx = true;
    pending = false;
  }

  -- A message in a batch of its own, after what was pending.
  unfoldable pub isolate : Envelope → C → Receiver C → Cutting C × Receiver C
  isolate msg committer r =
      let (c, r') =
        if ltb 0 (length r.pending_batch) then append_cut r accepted else (accepted, r) in
      (
        record c {
          message_batches = c.message_batches ++ ((msg ∷ []) ∷ []);
          committer_batches = c.committer_batches ++ ((committer ∷ []) ∷ []);
        },
        r',
      )

  -- What was pending is cut if the message would overflow it.
  unfoldable pub make_room : BatchSize → Envelope → Receiver C → Cutting C × Receiver C
  unfolding message_size_bytes
  make_room batch_size msg r =
      if ltb batch_size.preferred_max_bytes
        ((r.pending_batch_size_bytes + message_size_bytes msg) % 2 ^ 32)
      then append_cut r accepted
      else (accepted, r)

  unfoldable pub add_pending : Envelope → C → Receiver C → Receiver C
  unfolding message_size_bytes
  add_pending msg committer r = record {
    pending_batch = r.pending_batch ++ (msg ∷ []);
    pending_batch_size_bytes = (r.pending_batch_size_bytes + message_size_bytes msg) % 2 ^ 32;
    pending_committers = r.pending_committers ++ (committer ∷ []);
  }

  unfoldable pub cut_if_full : BatchSize → Cutting C → Receiver C → Cutting C × Receiver C
  cut_if_full batch_size c r =
      if leb batch_size.max_message_count (length r.pending_batch % 2 ^ 32)
      then (let (c', r') = append_cut r c in (record c' { pending = false }, r'))
      else (record c { pending = true }, r)

  unfoldable pub enqueue : BatchSize → Envelope → C → Receiver C → Cutting C × Receiver C
  unfolding make_room add_pending cut_if_full
  enqueue batch_size msg committer r =
      let (c, r') = make_room batch_size msg r in
      cut_if_full batch_size c (add_pending msg committer r')

  unfoldable pub ordered :
      BatchSize → List (Rule C) → Envelope → Receiver C → Outcome (Cutting C × Receiver C)
  unfolding apply message_size_bytes isolate enqueue
  ordered batch_size filters msg r = elim (apply C filters msg) [
    | err e ↦ ok (
      record { message_batches = []; committer_batches = []; valid_tx = false; pending = false },
      r,
    )
    | panic ↦ panic
    | ok none ↦ panic
    | ok (some committer) ↦ ok (
        if isolated committer || ltb batch_size.preferred_max_bytes (message_size_bytes msg)
        then isolate msg committer r
        else enqueue batch_size msg committer r)
  ]
