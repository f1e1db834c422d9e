-- ===== src/Orderer/Cutter/Flow.antt =====
-- What the block cutter does with the messages: none is lost, none is doubled, and their order stays.
use fabric.Prelude.{
  ◌+◌, ◌%◌, ◌^◌, ◌≡◌, refl, sym, ap, ◌∙◌, ◌⊎◌, Bool, true, false, List, [], ◌∷◌, ◌++◌, length, ltb,
  leb, arith, Bool-cases, inl, inr, append-nil, append_assoc,
}
use fabric.Orderer.Filter.{Envelope, BatchSize, message_size_bytes}
use fabric.Orderer.Cutter.{Receiver, Cutting, isolate, make_room, add_pending, cut_if_full, enqueue}

abbrev pub concat {ℓ} : {A : Type ℓ} → List (List A) → List A
concat [] = []
concat (b ∷ bs) = b ++ concat bs

module _ {ℓ} {A : Type ℓ} where
  pub concat-append : (bs cs : List (List A)) → concat (bs ++ cs) ≡ concat bs ++ concat cs
  concat-append [] cs = refl
  concat-append (b ∷ bs) cs =
      ap (◌++◌ b) (concat-append bs cs) ∙ sym (append_assoc b (concat bs) (concat cs))

  empty_of : (xs : List A) → ltb 0 (length xs) ≡ false → xs ≡ []
  empty_of [] h = refl
  empty_of (x ∷ xs) h = ground arith

ruleset lists = (append-nil, append_assoc, concat-append)

module _ (C : Type 0) (isolated : C → Bool) where
  -- The messages and the committers that a step leaves, cut or pending, are those that it found and one more.
  pub record Keeps (r : Receiver C) (msg : Envelope) (committer : C) (p : Cutting C × Receiver C)
      : Type 0 where
    pub valid : p.0.valid_tx ≡ true
    pub messages : concat p.0.message_batches ++ p.1.pending_batch ≡ r.pending_batch ++ (msg ∷ [])
    pub committers :
        concat p.0.committer_batches ++ p.1.pending_committers
        ≡ r.pending_committers ++ (committer ∷ [])

  pub enqueue-Keeps :
      (batch_size : BatchSize) (msg : Envelope) (committer : C) (r : Receiver C)
      → Keeps r msg committer (enqueue C isolated batch_size msg committer r)
  unfolding enqueue make_room add_pending cut_if_full
  enqueue-Keeps batch_size msg committer r = by_room (
      Bool-cases (
        ltb batch_size.preferred_max_bytes
          ((r.pending_batch_size_bytes + message_size_bytes msg) % 2 ^ 32)))
    where
      by_room :
          (ltb batch_size.preferred_max_bytes
                ((r.pending_batch_size_bytes + message_size_bytes msg) % 2 ^ 32)
              ≡ true)
            ⊎ (ltb batch_size.preferred_max_bytes
                  ((r.pending_batch_size_bytes + message_size_bytes msg) % 2 ^ 32)
                ≡ false)
          → Keeps r msg committer (enqueue C isolated batch_size msg committer r)
      by_room (inl h) = elim (Bool-cases (leb batch_size.max_message_count (1 % 2 ^ 32))) [
        | inl f ↦
            rw h (rw f (record { valid = refl; messages = simp lists; committers = simp lists }))
        | inr f ↦
            rw h (rw f (record { valid = refl; messages = simp lists; committers = simp lists }))
      ]
      by_room (inr h) =
          elim (Bool-cases
            (leb batch_size.max_message_count (length (r.pending_batch ++ (msg ∷ [])) % 2 ^ 32))) [
              | inl f ↦
                  rw h
                    (rw f (record { valid = refl; messages = simp lists; committers = simp lists }))
              | inr f ↦ rw h (rw f (record { valid = refl; messages = refl; committers = refl }))
            ]

  pub isolate-Keeps :
      (msg : Envelope) (committer : C) (r : Receiver C)
      → length r.pending_batch ≡ length r.pending_committers
      → Keeps r msg committer (isolate C isolated msg committer r)
  unfolding isolate
  isolate-Keeps msg committer r e = elim (Bool-cases (ltb 0 (length r.pending_batch))) [
    | inl h ↦ rw h (record { valid = refl; messages = simp lists; committers = simp lists })
    | inr h ↦
        let pb = empty_of r.pending_batch h in
        let pc = empty_of r.pending_committers (rw e at h) in
        rw h (record { valid = refl; messages = simp (lists, pb); committers = simp (lists, pc) })
  ]

  abbrev pub IsPaired : Receiver C → Type 0
  IsPaired r = length r.pending_batch ≡ length r.pending_committers

  pub isolate-IsPaired :
      (msg : Envelope) (committer : C) (r : Receiver C)
      → length r.pending_batch ≡ length r.pending_committers
      → length ((isolate C isolated msg committer r).1.pending_batch)
        ≡ length ((isolate C isolated msg committer r).1.pending_committers)
  unfolding isolate
  isolate-IsPaired msg committer r e = elim (Bool-cases (ltb 0 (length r.pending_batch))) [
    | inl h ↦ rw h refl
    | inr h ↦ rw h e
  ]
