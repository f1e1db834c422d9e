-- ===== src/Gossip/PayloadsBuffer/Order.antt =====
-- Whatever the order in which payloads arrive, the buffer gives them out in the order of their
-- numbers, and loses none.
use fabric.Prelude.{
  ℕ, suc, ◌+◌, ◌%◌, ◌^◌, ◌≤◌, ◌<◌, ◌≡◌, refl, sym, ap, ◌∙◌, Option, none, some, List, [], ◌∷◌,
  length, arith, nat_Eq, nat_eq_iff,
}
use mathlib.Core.Path.{subst}
use fabric.Prelude.Assoc.{lookup, remove, lookup-insert, lookup-remove}
use fabric.Gossip.PayloadsBuffer.{Payload, PayloadsBuffer, push, pop}

-- What the other goroutines do with the buffer, one after the other under its mutex.
pub data Op : Type 0 where
  push_op : Payload → Op
  pop_op : Op

abbrev pub given : Option Payload → List Payload → List Payload
given none ps = ps
given (some p) ps = p ∷ ps

-- The payloads that the calls of `Pop` return, and the buffer at the end.
unfoldable pub run : List Op → PayloadsBuffer → List Payload × PayloadsBuffer
unfolding push pop
run [] b = ([], b)
run (push_op p ∷ ops) b = run ops (push p b).1
run (pop_op ∷ ops) b = let (o, b') = pop b in let (ps, b'') = run ops b' in (given o ps, b'')

-- The numbers of the payloads count up from `n`.
abbrev pub IsConsecutive : ℕ → List Payload → Type 0
IsConsecutive n [] = Unit
IsConsecutive n (p ∷ ps) = (p.seq_num ≡ n) × IsConsecutive (suc n) ps

-- Each payload stands under its own number, and none below the next one.
pub record IsBuffer (b : PayloadsBuffer) : Type 0 where
  pub own_number : (k : ℕ) (p : Payload) → lookup k b.buf ≡ some p → p.seq_num ≡ k
  pub not_below : (k : ℕ) (p : Payload) → lookup k b.buf ≡ some p → b.next ≤ k

push-IsBuffer : (p : Payload) (b : PayloadsBuffer) → IsBuffer b → IsBuffer ((push p b).1)
unfolding push
push-IsBuffer p b ib = record {
  own_number = λ k q e. ground (arith, e, ib.own_number k q, lookup-insert p.seq_num k p b.buf);
  not_below = λ k q e. ground (arith, e, ib.not_below k q, lookup-insert p.seq_num k p b.buf);
}

removed-IsBuffer :
    (b : PayloadsBuffer)
    → IsBuffer b
    → b.next + 1 < 2 ^ 64
    → IsBuffer (record b { next = (b.next + 1) % 2 ^ 64; buf = remove b.next b.buf })
removed-IsBuffer b ib lt = record {
  own_number = λ k p e. ground (arith, e, ib.own_number k p, lookup-remove b.next k b.buf);
  not_below = λ k p e.
      ground (arith, e, ib.not_below k p, lookup-remove b.next k b.buf, nat_eq_iff b.next k);
}

-- What a run from the buffer `b` gives: consecutive numbers from the next expected one, which is past
-- them at the end.
pub record InOrder (b : PayloadsBuffer) (r : List Payload × PayloadsBuffer) : Type 0 where
  pub consecutive : IsConsecutive b.next r.0
  pub advanced : r.1.next ≡ b.next + length r.0
  pub buffer : IsBuffer r.1

push-next : (p : Payload) (b : PayloadsBuffer) → (push p b).1.next ≡ b.next
unfolding push
push-next p b = ground arith

-- Whatever calls of `Push` and `Pop` are made and in which order, as long as the numbers stay below
-- 2^64, the payloads that `Pop` returns have consecutive numbers from the next expected one, this one
-- is past them at the end, and each payload stays under its own number.
pub run-InOrder :
    (ops : List Op) (b : PayloadsBuffer)
    → IsBuffer b
    → b.next + length ops < 2 ^ 64
    → InOrder b (run ops b)
unfolding run
run-InOrder [] b ib lt = record { consecutive = tt; advanced = omega arith; buffer = ib }
run-InOrder (push_op p ∷ ops) b ib lt =
    let same = push-next p b in
    let rest = run-InOrder ops ((push p b).1) (push-IsBuffer p b ib) (omega (arith, same)) in
    record {
      consecutive = subst (λ n. IsConsecutive n ((run ops ((push p b).1)).0)) same rest.consecutive;
      advanced = rest.advanced ∙ ap (λ n. n + length ((run ops ((push p b).1)).0)) same;
      buffer = rest.buffer;
    }
run-InOrder (pop_op ∷ ops) b ib lt = by_next (lookup b.next b.buf) refl (λ b'. run-InOrder ops b')
  where
    by_next :
        (o : Option Payload)
        → lookup b.next b.buf ≡ o
        → ((b' : PayloadsBuffer)
            → IsBuffer b'
            → b'.next + length ops < 2 ^ 64
            → InOrder b' (run ops b'))
        → InOrder b (run (pop_op ∷ ops) b)
    by_next none e ih =
        let rest = ih b ib (omega arith) in
        rw (e, pop)
          (record {
            consecutive = rest.consecutive;
            advanced = rest.advanced;
            buffer = rest.buffer;
          })
    by_next (some p) e ih =
        let b' : PayloadsBuffer = record b {
          next = (b.next + 1) % 2 ^ 64;
          buf = remove b.next b.buf;
        } in
        let rest = ih b' (removed-IsBuffer b ib (omega arith)) (omega arith) in
        let up : (b.next + 1) % 2 ^ 64 ≡ suc b.next = omega arith in
        let tail : IsConsecutive (suc b.next) (run ops b').0 = rw (sym up) rest.consecutive in
        rw (e, pop)
          (record {
            consecutive = (ib.own_number b.next p e, tail);
            advanced = omega (arith, rest.advanced, up);
            buffer = rest.buffer;
          })
