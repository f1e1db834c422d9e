-- ===== src/Orderer/Cutter/Bounds.antt =====
-- The size of what the block cutter cuts, in messages and in bytes.
use fabric.Prelude.{
  ℕ, ◌≡◌, ◌⊎◌, refl, Option, none, some, Bool, true, false, ◌||◌, List, [], ◌∷◌, ◌++◌, length, ltb,
  leb, if◌then◌else◌, Bool-cases, inl, inr, length-append, arith, ◌+◌, ◌%◌, ◌^◌, ◌<◌, ◌≤◌, All,
  All-append, sym,
}
use fabric.Prelude.Outcome.{Outcome, ok, err, panic}
use fabric.Orderer.Filter.{Envelope, BatchSize, Rule, apply, message_size_bytes}
use fabric.Orderer.Cutter.{
  Receiver, Cutting, isolate, enqueue, make_room, add_pending, cut_if_full, ordered,
}

-- The bytes of a batch, without a bound.
unfoldable pub total : List Envelope → ℕ
unfolding message_size_bytes
total [] = 0
total (m ∷ ms) = message_size_bytes m + total ms

total-snoc :
    (ms : List Envelope) (m : Envelope) → total (ms ++ (m ∷ [])) ≡ total ms + message_size_bytes m
unfolding total
total-snoc [] m = omega arith
total-snoc (x ∷ ms) m = omega (arith, total-snoc ms m)

total-empty : (ms : List Envelope) → length ms ≡ 0 → total ms ≡ 0
unfolding total
total-empty [] h = refl
total-empty (m ∷ ms) h = omega (arith, h)

-- The limits under which the code counts well: a batch allows a message, which the check of the
-- configuration asks too, and two messages of the preferred size do not wrap around uint32, which
-- nothing in the code asks.
pub record IsBatchSize (b : BatchSize) : Type 0 where
  pub some_messages : 0 < b.max_message_count
  pub count_fits : b.max_message_count < 2 ^ 32
  pub no_wrap : b.preferred_max_bytes < 2 ^ 31

pub record IsBounded (b : BatchSize) (batch : List Envelope) : Type 0 where
  pub nonempty : 0 < length batch
  pub count_ok : length batch ≤ b.max_message_count
  pub bytes_ok : (total batch ≤ b.preferred_max_bytes) ⊎ (length batch ≡ 1)

pub record IsReceiver (C : Type 0) (b : BatchSize) (r : Receiver C) : Type 0 where
  pub count_below : length r.pending_batch < b.max_message_count
  pub size_exact : r.pending_batch_size_bytes ≡ total r.pending_batch
  pub size_ok : total r.pending_batch ≤ b.preferred_max_bytes

module _ (C : Type 0) (isolated : C → Bool) (b : BatchSize) where
  pub record IsStep (p : Cutting C × Receiver C) : Type 0 where
    pub receiver : IsReceiver C b p.1
    pub batches : All (IsBounded b) p.0.message_batches
    pub flag : p.0.pending ≡ ltb 0 (length p.1.pending_batch)

  one-IsBounded : (m : Envelope) → IsBatchSize b → IsBounded b (m ∷ [])
  one-IsBounded m ib = record {
    nonempty = omega arith;
    count_ok = omega arith;
    bytes_ok = inr refl;
  }

  pending-IsBounded :
      (r : Receiver C) → IsReceiver C b r → 0 < length r.pending_batch → IsBounded b r.pending_batch
  pending-IsBounded r ir h = record {
    nonempty = h;
    count_ok = omega arith;
    bytes_ok = inl ir.size_ok;
  }

  empty-IsReceiver :
      IsBatchSize b
      → IsReceiver C b
          (record { pending_batch = []; pending_batch_size_bytes = 0; pending_committers = [] })
  unfolding total
  empty-IsReceiver ib = record {
    count_below = omega arith;
    size_exact = refl;
    size_ok = omega arith;
  }

  -- The end of a step on a receiver that holds the message already.
  cut_if_full-IsStep :
      (c : Cutting C) (r : Receiver C)
      → IsBatchSize b
      → All (IsBounded b) c.message_batches
      → IsBounded b r.pending_batch
      → r.pending_batch_size_bytes ≡ total r.pending_batch
      → total r.pending_batch ≤ b.preferred_max_bytes
      → IsStep (cut_if_full C isolated b c r)
  unfolding cut_if_full
  cut_if_full-IsStep c r ib hb one e le =
      elim (Bool-cases (leb b.max_message_count (length r.pending_batch % 2 ^ 32))) [
        | inl f ↦ rw f (record {
          receiver = empty-IsReceiver ib;
          batches = All-append (IsBounded b) c.message_batches (r.pending_batch ∷ []) hb (one, tt);
          flag = refl;
        })
        | inr f ↦ rw f (record {
          receiver = record {
            count_below = ground (arith, one.nonempty, one.count_ok, f);
            size_exact = e;
            size_ok = le;
          };
          batches = hb;
          flag = ground (arith, one.nonempty);
        })
      ]

  add_pending-size :
      (m : Envelope) (c : C) (r : Receiver C)
      → IsBatchSize b
      → IsReceiver C b r
      → message_size_bytes m ≤ b.preferred_max_bytes
      → (r.pending_batch_size_bytes + message_size_bytes m) % 2 ^ 32
        ≡ total (r.pending_batch ++ (m ∷ []))
  add_pending-size m c r ib ir h = omega (arith, total-snoc r.pending_batch m)

  isolate-IsStep :
      (m : Envelope) (c : C) (r : Receiver C)
      → IsBatchSize b
      → IsReceiver C b r
      → IsStep (isolate C isolated m c r)
  unfolding isolate total
  isolate-IsStep m c r ib ir = elim (Bool-cases (ltb 0 (length r.pending_batch))) [
    | inl h ↦ rw h (record {
      receiver = empty-IsReceiver ib;
      batches = (pending-IsBounded r ir (ground (arith, h)), (one-IsBounded m ib, tt));
      flag = refl;
    })
    | inr h ↦ rw h (record { receiver = ir; batches = (one-IsBounded m ib, tt); flag = sym h })
  ]

  enqueue-IsStep :
      (m : Envelope) (c : C) (r : Receiver C)
      → IsBatchSize b
      → IsReceiver C b r
      → message_size_bytes m ≤ b.preferred_max_bytes
      → IsStep (enqueue C isolated b m c r)
  unfolding enqueue make_room add_pending
  enqueue-IsStep m c r ib ir h =
      elim (Bool-cases (
        ltb b.preferred_max_bytes ((r.pending_batch_size_bytes + message_size_bytes m) % 2 ^ 32))) [
          | inl f ↦
              let full : 0 < length r.pending_batch =
                ground (arith, f, total-empty r.pending_batch) in
              let room =
                add_pending-size m c
                  (record {
                    pending_batch = [];
                    pending_batch_size_bytes = 0;
                    pending_committers = [];
                  })
                  ib (empty-IsReceiver ib) h in
              let cutting : Cutting C = record {
                message_batches = r.pending_batch ∷ [];
                committer_batches = r.pending_committers ∷ [];
                valid_tx = true;
                pending = false;
              } in
              let empty : Receiver C = record {
                pending_batch = [];
                pending_batch_size_bytes = 0;
                pending_committers = [];
              } in
              rw f (
                cut_if_full-IsStep cutting (add_pending C isolated m c empty) ib
                  (pending-IsBounded r ir full, tt) (one-IsBounded m ib) room
                  (omega (arith, total-snoc [] m, total-empty [])))
          | inr f ↦
              let room = add_pending-size m c r ib ir h in
              let fits : total (r.pending_batch ++ (m ∷ [])) ≤ b.preferred_max_bytes =
                ground (arith, room, f) in
              let cutting : Cutting C = record {
                message_batches = [];
                committer_batches = [];
                valid_tx = true;
                pending = false;
              } in
              rw f (
                cut_if_full-IsStep cutting (add_pending C isolated m c r) ib tt
                  (record {
                    nonempty = omega (arith, length-append r.pending_batch (m ∷ []));
                    count_ok = omega (arith, length-append r.pending_batch (m ∷ []));
                    bytes_ok = inl fits;
                  })
                  room fits)
        ]

  -- Let a batch allow at least one message and at most 2^32 - 1 of them, let the preferred bytes be
  -- below 2^31, and let the receiver hold fewer messages than a batch allows, with their exact size,
  -- within the preferred bytes. If `Ordered` takes a message as valid, every batch that it cuts is
  -- nonempty, within the message count, and within the preferred bytes or of one message; the receiver
  -- that is left is again such a one, and the flag says whether it holds messages.
  pub ordered-IsStep :
      (filters : List (Rule C)) (m : Envelope) (r r' : Receiver C) (c : Cutting C)
      → IsBatchSize b
      → IsReceiver C b r
      → ordered C isolated b filters m r ≡ ok (c, r')
      → c.valid_tx ≡ true
      → IsStep (c, r')
  unfolding ordered
  ordered-IsStep filters m r r' c ib ir e v = by_action (apply C filters m) refl
    where
      finish : (p : Cutting C × Receiver C) → ok p ≡ ok (c, r') → IsStep p → IsStep (c, r')
      finish p q s = let same : (c, r') ≡ p = cc in rw same s

      by_ok :
          (k : C) {t : Bool}
          → apply C filters m ≡ ok (some k)
          → (isolated k || ltb b.preferred_max_bytes (message_size_bytes m)) ≡ t
          → ok (if t then isolate C isolated m k r else enqueue C isolated b m k r) ≡ ok (c, r')
      by_ok k a h = rw (sym h) (rw (a, ordered) at e)

      by_action : (o : Outcome (Option C)) → apply C filters m ≡ o → IsStep (c, r')
      by_action panic a = ground (arith, a, e)
      by_action (ok none) a = ground (arith, a, e)
      by_action (err x) a = ground (arith, a, e, v)
      by_action (ok (some k)) a =
          elim (Bool-cases (isolated k || ltb b.preferred_max_bytes (message_size_bytes m))) [
            | inl h ↦ finish (isolate C isolated m k r) (by_ok k a h) (isolate-IsStep m k r ib ir)
            | inr h ↦
                finish (enqueue C isolated b m k r) (by_ok k a h)
                  (enqueue-IsStep m k r ib ir (ground (arith, h)))
          ]
