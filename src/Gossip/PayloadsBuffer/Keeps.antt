-- ===== src/Gossip/PayloadsBuffer/Keeps.antt =====
-- No payload that the buffer took is lost or replaced.
use fabric.Prelude.{
  ℕ, ◌+◌, ◌%◌, ◌^◌, ◌≡◌, ◌⊎◌, inl, inr, refl, ◌∙◌, Option, none, some, List, [], ◌∷◌, nat_eq, arith,
  nat_Eq, nat_eq_iff, Bool-cases,
}
use fabric.Prelude.Assoc.{lookup, remove, lookup-insert, lookup-remove}
use fabric.Gossip.PayloadsBuffer.{Payload, PayloadsBuffer, push, pop}
use fabric.Gossip.PayloadsBuffer.Order.{Op, push_op, pop_op, run}

abbrev pub IsIn : Payload → List Payload → Type 0
IsIn p [] = ⊥
IsIn p (q ∷ ps) = (p ≡ q) ⊎ IsIn p ps

push-lookup :
    (q : Payload) (b : PayloadsBuffer) (k : ℕ) (p : Payload)
    → lookup k b.buf ≡ some p
    → lookup k (push q b).1.buf ≡ some p
unfolding push
push-lookup q b k p e = ground (arith, e, lookup-insert q.seq_num k q b.buf, nat_eq_iff q.seq_num k)

-- A payload that is in the buffer is, after any calls of `Push` and `Pop`, either among those that
-- `Pop` returned or in the buffer still, under the same number.
pub run-keeps :
    (ops : List Op) (b : PayloadsBuffer) (k : ℕ) (p : Payload)
    → lookup k b.buf ≡ some p
    → (lookup k (run ops b).1.buf ≡ some p) ⊎ IsIn p (run ops b).0
unfolding run
run-keeps [] b k p e = inl e
run-keeps (push_op q ∷ ops) b k p e = run-keeps ops ((push q b).1) k p (push-lookup q b k p e)
run-keeps (pop_op ∷ ops) b k p e = by_next (lookup b.next b.buf) refl (λ b'. run-keeps ops b' k p)
  where
    later :
        (q : Payload) (r : List Payload × PayloadsBuffer)
        → (lookup k r.1.buf ≡ some p) ⊎ IsIn p r.0
        → (lookup k r.1.buf ≡ some p) ⊎ IsIn p (q ∷ r.0)
    later q r (inl kept) = inl kept
    later q r (inr there) = inr (inr there)

    by_next :
        (o : Option Payload)
        → lookup b.next b.buf ≡ o
        → ((b' : PayloadsBuffer)
            → lookup k b'.buf ≡ some p
            → (lookup k (run ops b').1.buf ≡ some p) ⊎ IsIn p (run ops b').0)
        → (lookup k (run (pop_op ∷ ops) b).1.buf ≡ some p) ⊎ IsIn p (run (pop_op ∷ ops) b).0
    by_next none n ih = rw (n, pop) (ih b e)
    by_next (some q) n ih =
        let b' : PayloadsBuffer = record b {
          next = (b.next + 1) % 2 ^ 64;
          buf = remove b.next b.buf;
        } in
        elim (Bool-cases (nat_eq b.next k)) [
          | inl hit ↦
              let same : p ≡ q = ground (arith, e, n, hit, nat_eq_iff b.next k) in
              rw (n, pop) (inr (inl same))
          | inr miss ↦
              let kept : lookup k b'.buf ≡ some p = lookup-remove b.next k b.buf ∙ rw miss e in
              rw (n, pop) (later q (run ops b') (ih b' kept))
        ]
