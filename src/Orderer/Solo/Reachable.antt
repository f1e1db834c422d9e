-- ===== src/Orderer/Solo/Reachable.antt =====
-- What is known of the consenter's chain after any messages and expiries of its timer.
use mathlib.Core.Bool.{false≢true}
use mathlib.Core.Path.{subst}
use fabric.Prelude.{
  ◌≡◌, ◌≢◌, refl, sym, ap, ◌∙◌, none, Bool, true, false, not, ◌&&◌, List, [], ◌∷◌, ◌++◌, length,
  arith, append-nil, append_assoc,
}
use fabric.Prelude.Outcome.{ok}
use fabric.Orderer.Filter.{Envelope, BatchSize, Rule, apply}
use fabric.Orderer.Cutter.{new_receiver}
use fabric.Orderer.Cutter.Flow.{concat, concat-append, IsPaired}
use fabric.Orderer.Cutter.Runs.{Step, step, passed, when_passed}
use fabric.Orderer.Solo.{
  Block, Chain, is_nil, new_chain, write_blocks, on_message, on_timer, write_pending, Reaches,
  start, message, expiry,
}

abbrev pub batches : {C : Type 0} → List (Block C) → List (List Envelope)
batches [] = []
batches (b ∷ l) = b.batch ∷ batches l

batches-append :
    {C : Type 0} (l : List (Block C)) (b : Block C)
    → batches (l ++ b ∷ []) ≡ batches l ++ b.batch ∷ []
batches-append [] b = refl
batches-append (x ∷ l) b = ap (◌∷◌ x.batch) (batches-append l b)

nil_of : {A : Type 0} (l : List A) → is_nil l ≡ true → l ≡ []
nil_of [] e = refl
nil_of (x ∷ l) e = absurd (false≢true e)

append-ne-left : {A : Type 0} (xs ys : List A) {zs : List A} → xs ≢ [] → zs ≡ xs ++ ys → zs ≢ []
append-ne-left [] ys n e f = absurd (n refl)
append-ne-left (x ∷ xs) ys n e f = cc (e, f)

append-ne-right : {A : Type 0} (xs : List A) (y : A) {zs : List A} → zs ≡ xs ++ y ∷ [] → zs ≢ []
append-ne-right [] y e f = cc (e, f)
append-ne-right (x ∷ xs) y e f = cc (e, f)

module _ (C : Type 0) (isolated : C → Bool) (batch_size : BatchSize) (filters : List (Rule C)) where
  -- The messages of the blocks, in order.
  abbrev pub written : Chain C → List Envelope
  written s = concat (batches s.ledger)

  -- What is written and pending is what the filters let pass, in order, and a running timer has a
  -- message to wait for.
  pub record IsChain (ms : List Envelope) (s : Chain C) : Type 0 where
    pub paired : IsPaired C isolated s.receiver
    pub messages : written s ++ s.receiver.pending_batch ≡ passed C isolated batch_size filters ms
    pub waits : s.timer ≡ true → s.receiver.pending_batch ≢ []

  -- The batches that are written come behind what the ledger holds.
  write_blocks-batches :
      (bs : List (List Envelope)) (cs : List (List C)) (l : List (Block C))
      → length bs ≡ length cs
      → (l' : List (Block C)) × (write_blocks C isolated batch_size filters bs cs l ≡ ok l')
        × (batches l' ≡ batches l ++ bs)
  unfolding write_blocks
  write_blocks-batches [] cs l e = (l, refl, sym (append-nil (batches l)))
  write_blocks-batches (b ∷ bs) [] l e = absurd (omega (arith, e))
  write_blocks-batches (b ∷ bs) (c ∷ cs) l e =
      let block : Block C = record { batch = b; committers = c } in
      let (l', w, h) = write_blocks-batches bs cs (l ++ block ∷ []) (omega (arith, e)) in
      (l', w, h ∙ ap (λ x. x ++ bs) (batches-append l block) ∙ append_assoc (batches l) (b ∷ []) bs)

  passed-append :
      (ms : List Envelope) (m : Envelope)
      → passed C isolated batch_size filters (ms ++ m ∷ [])
        ≡ passed C isolated batch_size filters ms
          ++ when_passed C isolated batch_size m (apply C filters m)
  unfolding passed
  passed-append [] m = append-nil _
  passed-append (x ∷ ms) m =
      ap (λ l. when_passed C isolated batch_size x (apply C filters x) ++ l) (passed-append ms m)
      ∙ sym (append_assoc (when_passed C isolated batch_size x (apply C filters x)) _ _)

  module _ (never : (m : Envelope) → apply C filters m ≢ ok none) where
    abbrev StepOf : Envelope → Chain C → Type 0
    StepOf m s = Step C isolated batch_size filters m s.receiver

    -- Nothing was cut: the message joins what is pending.
    pending-grows :
        (m : Envelope) (s : Chain C) (st : StepOf m s)
        → is_nil st.cutting.message_batches ≡ true
        → st.rest.pending_batch
          ≡ s.receiver.pending_batch ++ when_passed C isolated batch_size m (apply C filters m)
    pending-grows m s st e =
        ap (λ b. concat b ++ st.rest.pending_batch) (sym (nil_of _ e)) ∙ st.messages

    -- The chain after a message that was cut into some batches.
    after :
        (ms : List Envelope) (m : Envelope) (s : Chain C) (st : StepOf m s) (l : List (Block C))
        (timer : Bool)
        → IsChain ms s
        → batches l ≡ batches s.ledger ++ st.cutting.message_batches
        → (timer ≡ true → st.rest.pending_batch ≢ [])
        → IsChain (ms ++ m ∷ []) (record { receiver = st.rest; timer = timer; ledger = l })
    after ms m s st l timer h e w = record {
      paired = st.paired;
      messages =
          ap (λ b. concat b ++ st.rest.pending_batch) e
          ∙ ap (λ b. b ++ st.rest.pending_batch)
              (concat-append (batches s.ledger) st.cutting.message_batches)
          ∙ append_assoc (written s) (concat st.cutting.message_batches) st.rest.pending_batch
          ∙ ap (λ b. written s ++ b) st.messages
          ∙ sym (append_assoc (written s) s.receiver.pending_batch _)
          ∙ ap (λ b. b ++ when_passed C isolated batch_size m (apply C filters m)) h.messages
          ∙ sym (passed-append ms m);
      waits = w;
    }

    -- Every message is handled, whatever the filters say of it.
    pub on_message-IsChain :
        (ms : List Envelope) (m : Envelope) (s : Chain C)
        → IsChain ms s
        → (s' : Chain C) × (on_message C isolated batch_size filters m s ≡ ok s')
          × IsChain (ms ++ m ∷ []) s'
    unfolding on_message
    on_message-IsChain ms m s h =
        by_first (st.cutting.valid_tx && is_nil st.cutting.message_batches && not s.timer) refl
      where
        st : StepOf m s
        st = step C isolated batch_size filters m s.receiver (never m) h.paired

        by_first :
            (b : Bool)
            → (st.cutting.valid_tx && is_nil st.cutting.message_batches && not s.timer) ≡ b
            → (s' : Chain C) × (on_message C isolated batch_size filters m s ≡ ok s')
              × IsChain (ms ++ m ∷ []) s'
        by_first true e =
            let nil : is_nil st.cutting.message_batches ≡ true = ground (arith, e) in
            let valid : st.cutting.valid_tx ≡ true = ground (arith, e) in
            (
              record s { receiver = st.rest; timer = true },
              rw (st.is_ordered, e) refl,
              after ms m s st s.ledger true h
                  (sym (append-nil (batches s.ledger))
                    ∙ ap (λ b. batches s.ledger ++ b) (sym (nil_of _ nil)))
                  (λ t. append-ne-right s.receiver.pending_batch m (
                    pending-grows m s st nil
                    ∙ ap (λ w. s.receiver.pending_batch ++ w) (st.passes valid))),
            )
        by_first false e =
            let (l, w, lb) =
              write_blocks-batches st.cutting.message_batches st.cutting.committer_batches s.ledger
                st.matched in
            (
              record {
                receiver = st.rest;
                timer = is_nil st.cutting.message_batches && s.timer;
                ledger = l;
              },
              rw (st.is_ordered, e, w) refl,
              after ms m s st l _ h lb (λ t.
                  append-ne-left s.receiver.pending_batch _ (h.waits (ground (arith, t)))
                    (pending-grows m s st (ground (arith, t)))),
            )

    ok-same : {a b : Chain C} → ok a ≡ ok b → a ≡ b
    ok-same e = cc

    write_pending-concat :
        (p : List Envelope) (cs : List C) (l : List (Block C))
        → concat (batches (write_pending C isolated batch_size filters (p, cs) l))
          ≡ concat (batches l) ++ p
    write_pending-concat [] cs l = sym (append-nil _)
    write_pending-concat (m ∷ p) cs l =
        ap concat (batches-append l (record { batch = m ∷ p; committers = cs }))
        ∙ concat-append (batches l) ((m ∷ p) ∷ [])
        ∙ ap (λ x. concat (batches l) ++ x) (append-nil (m ∷ p))

    pub on_timer-IsChain :
        (ms : List Envelope) (s : Chain C)
        → IsChain ms s
        → IsChain ms (on_timer C isolated batch_size filters s)
    unfolding on_timer
    on_timer-IsChain ms s h = record {
      paired = refl;
      messages =
          append-nil _
          ∙ write_pending-concat s.receiver.pending_batch s.receiver.pending_committers s.ledger
          ∙ h.messages;
      waits = λ t. absurd (false≢true t);
    }

    -- If no rule accepts without a committer, then after any messages and expiries of the timer the
    -- messages in the blocks and those pending are the ones that pass the filters, in the order in which
    -- they came, and a running timer has a pending message to wait for.
    pub reaches-IsChain :
        (ms : List Envelope) (s : Chain C)
        → Reaches C isolated batch_size filters ms s
        → IsChain ms s
    unfolding new_receiver new_chain passed
    reaches-IsChain ms s start = record {
      paired = refl;
      messages = refl;
      waits = λ t. absurd (false≢true t);
    }
    reaches-IsChain ms s (message {ms = ms'} {s = s'} m r e) =
        let (t, e', h) = on_message-IsChain ms' m s' (reaches-IsChain ms' s' r) in
        subst (IsChain ms) (ok-same (sym e' ∙ e)) h
    reaches-IsChain ms s (expiry {s = s'} r t) = on_timer-IsChain ms s' (reaches-IsChain ms s' r)
