-- ===== src/Orderer/Cutter/Runs.antt =====
-- The block cutter fed with messages one after the other: what has been cut and what is pending are
-- the messages that pass the filters, in their order.
use mathlib.Core.Bool.{false≢true}
use fabric.Prelude.{
  true, length, append_assoc, append-nil, ◌≡◌, ◌≢◌, refl, sym, ap, ◌∙◌, Option, none, some, Bool,
  false, ◌||◌, List, [], ◌∷◌, ◌++◌, ltb, Bool-cases, inl, inr, length-append, arith,
}
use fabric.Prelude.Outcome.{Outcome, ok, err, panic, ◌>>=◌}
use fabric.Orderer.Filter.{Envelope, BatchSize, Rule, apply, message_size_bytes}
use fabric.Orderer.Cutter.{
  Receiver, Cutting, isolate, enqueue, make_room, add_pending, cut_if_full, ordered,
}
use fabric.Orderer.Cutter.Flow.{
  concat, concat-append, IsPaired, enqueue-Keeps, isolate-Keeps, isolate-IsPaired,
}

-- The batches of one step, those of the steps after it, and what is pending at the end.
join :
    {A : Type 0} (b1 bs : List (List A)) (p' p1 p x xs : List A)
    → concat bs ++ p' ≡ p1 ++ xs
    → concat b1 ++ p1 ≡ p ++ x
    → concat (b1 ++ bs) ++ p' ≡ p ++ (x ++ xs)
join b1 bs p' p1 p x xs h h1 =
    ap (λ v. v ++ p') (concat-append b1 bs)
    ∙ append_assoc (concat b1) (concat bs) p'
    ∙ ap (λ v. concat b1 ++ v) h
    ∙ sym (append_assoc (concat b1) p1 xs)
    ∙ ap (λ v. v ++ xs) h1
    ∙ append_assoc p x xs

module _ (C : Type 0) (isolated : C → Bool) (batch_size : BatchSize) where
  unfoldable pub run :
      List (Rule C)
      → List Envelope
      → Receiver C
      → Outcome (List (List Envelope) × List (List C) × Receiver C)
  unfolding ordered
  run filters [] r = ok ([], [], r)
  run filters (m ∷ ms) r = ordered C isolated batch_size filters m r >>= λ (c, r').
      run filters ms r' >>= λ (bs, cs, r'').
      ok (c.message_batches ++ bs, c.committer_batches ++ cs, r'')

  abbrev committer_of : Outcome (Option C) → List C
  committer_of (ok (some c)) = c ∷ []
  committer_of _ = []

  abbrev pub when_passed : Envelope → Outcome (Option C) → List Envelope
  when_passed m (ok (some c)) = m ∷ []
  when_passed m _ = []

  -- The messages that the filters let pass, and the committers that they get.
  unfoldable pub passed : List (Rule C) → List Envelope → List Envelope
  unfolding apply
  passed filters [] = []
  passed filters (m ∷ ms) = when_passed m (apply C filters m) ++ passed filters ms

  unfoldable pub committers : List (Rule C) → List Envelope → List C
  unfolding apply
  committers filters [] = []
  committers filters (m ∷ ms) = committer_of (apply C filters m) ++ committers filters ms

  enqueue-IsPaired :
      (msg : Envelope) (c : C) (r : Receiver C)
      → IsPaired C isolated r
      → IsPaired C isolated ((enqueue C isolated batch_size msg c r).1)
  unfolding enqueue make_room add_pending cut_if_full
  enqueue-IsPaired msg c r e =
      ground (
        arith,
        length-append r.pending_batch (msg ∷ []),
        length-append r.pending_committers (c ∷ []),
      )

  abbrev IsMatched : Cutting C → Type 0
  IsMatched c = length c.message_batches ≡ length c.committer_batches

  isolate-IsMatched :
      (msg : Envelope) (c : C) (r : Receiver C) → IsMatched ((isolate C isolated msg c r).0)
  unfolding isolate
  isolate-IsMatched msg c r = elim (Bool-cases (ltb 0 (length r.pending_batch))) [
    | inl h ↦ rw h refl
    | inr h ↦ rw h refl
  ]

  enqueue-IsMatched :
      (msg : Envelope) (c : C) (r : Receiver C)
      → IsMatched ((enqueue C isolated batch_size msg c r).0)
  unfolding enqueue make_room add_pending cut_if_full
  enqueue-IsMatched msg c r = ground arith

  -- One message.
  pub record Step (filters : List (Rule C)) (m : Envelope) (r : Receiver C) : Type 0 where
    pub cutting : Cutting C
    pub rest : Receiver C
    pub is_ordered : ordered C isolated batch_size filters m r ≡ ok (cutting, rest)
    pub paired : IsPaired C isolated rest
    pub messages :
        concat cutting.message_batches ++ rest.pending_batch
        ≡ r.pending_batch ++ when_passed m (apply C filters m)
    pub same_committers :
        concat cutting.committer_batches ++ rest.pending_committers
        ≡ r.pending_committers ++ committer_of (apply C filters m)
    pub matched : length cutting.message_batches ≡ length cutting.committer_batches
    pub passes : cutting.valid_tx ≡ true → when_passed m (apply C filters m) ≡ m ∷ []

  apply-ne-panic : (filters : List (Rule C)) (m : Envelope) → apply C filters m ≢ panic
  unfolding apply
  apply-ne-panic [] m = λ e. cc
  apply-ne-panic (rule ∷ rules) m = ground (arith, apply-ne-panic rules m)

  pub step :
      (filters : List (Rule C)) (m : Envelope) (r : Receiver C)
      → apply C filters m ≢ ok none
      → IsPaired C isolated r
      → Step filters m r
  unfolding ordered
  step filters m r never e = by_action (apply C filters m) refl
    where
      by_action : (o : Outcome (Option C)) → apply C filters m ≡ o → Step filters m r
      by_action panic a = absurd (apply-ne-panic filters m a)
      by_action (ok none) a = absurd (never a)
      by_action (err x) a = record {
        cutting = record {
          message_batches = [];
          committer_batches = [];
          valid_tx = false;
          pending = false;
        };
        rest = r;
        is_ordered = rw (a, ordered);
        paired = e;
        messages = rw a (sym (append-nil r.pending_batch));
        same_committers = rw a (sym (append-nil r.pending_committers));
        matched = refl;
        passes = λ v. absurd (false≢true v);
      }
      by_action (ok (some c)) a =
          elim (Bool-cases
            (isolated c || ltb batch_size.preferred_max_bytes (message_size_bytes m))) [
              | inl h ↦
                  let kept = isolate-Keeps C isolated m c r e in
                  record {
                    cutting = (isolate C isolated m c r).0;
                    rest = (isolate C isolated m c r).1;
                    is_ordered = rw (a, h, ordered);
                    paired = isolate-IsPaired C isolated m c r e;
                    messages = rw a kept.messages;
                    same_committers = rw a kept.committers;
                    matched = isolate-IsMatched m c r;
                    passes = λ v. rw a refl;
                  }
              | inr h ↦
                  let kept = enqueue-Keeps C isolated batch_size m c r in
                  record {
                    cutting = (enqueue C isolated batch_size m c r).0;
                    rest = (enqueue C isolated batch_size m c r).1;
                    is_ordered = rw (a, h, ordered);
                    paired = enqueue-IsPaired m c r e;
                    messages = rw a kept.messages;
                    same_committers = rw a kept.committers;
                    matched = enqueue-IsMatched m c r;
                    passes = λ v. rw a refl;
                  }
            ]

  -- If no rule accepts without a committer, the cutter takes every sequence of messages from any
  -- receiver whose pending messages and committers pair up. The batches, and what is pending at the
  -- end, are then what was pending followed by the messages that pass the filters in their order; and
  -- so for the committers.
  pub run-order :
      (filters : List (Rule C)) (ms : List Envelope) (r : Receiver C)
      → ((m : Envelope) → apply C filters m ≢ ok none)
      → IsPaired C isolated r
      → (bs : List (List Envelope)) × (cs : List (List C)) × (r' : Receiver C) × (run filters ms r
          ≡ ok (bs, cs, r'))
        × (concat bs ++ r'.pending_batch ≡ r.pending_batch ++ passed filters ms)
        × (concat cs ++ r'.pending_committers ≡ r.pending_committers ++ committers filters ms)
  unfolding run passed committers
  run-order filters [] r never e =
      ([], [], r, refl, sym (append-nil r.pending_batch), sym (append-nil r.pending_committers))
  run-order filters (m ∷ ms) r never e =
      let s = step filters m r (never m) e in
      let (bs, cs, r', q, hm, hc) = run-order filters ms s.rest never s.paired in
      (
        s.cutting.message_batches ++ bs,
        s.cutting.committer_batches ++ cs,
        r',
        rw (s.is_ordered, q) refl,
        join s.cutting.message_batches bs r'.pending_batch s.rest.pending_batch r.pending_batch
            (when_passed m (apply C filters m)) (passed filters ms) hm s.messages,
        join s.cutting.committer_batches cs r'.pending_committers s.rest.pending_committers
            r.pending_committers (committer_of (apply C filters m)) (committers filters ms) hc
            s.same_committers,
      )
