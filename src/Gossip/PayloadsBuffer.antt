-- ===== src/Gossip/PayloadsBuffer.antt =====
-- The buffer that puts the blocks of a channel back in order: gossip/state/payloads_buffer.go.
pub mod Order
pub mod Keeps
use fabric.Prelude.{
  ℕ, zero, suc, ◌+◌, ◌%◌, ◌^◌, Option, none, some, Bool, true, false, ◌||◌, List, [], ◌∷◌, ltb,
  nat_eq, length, if◌then◌else◌, nat_Eq,
}
use fabric.Prelude.Bytes.{Bytes, codes}
use fabric.Prelude.Assoc.{Assoc, lookup, insert, remove}

-- `Data` is the block, marshalled.
pub record Payload : Type 0 where
  pub seq_num : ℕ
  pub block : Bytes

-- `ready` counts the signals that were sent on the channel `readyChan`.
pub record PayloadsBuffer : Type 0 where
  pub next : ℕ
  pub buf : Assoc ℕ Payload
  pub ready : ℕ

unfoldable pub new_payloads_buffer : ℕ → PayloadsBuffer
new_payloads_buffer next = record { next = next; buf = []; ready = 0 }

abbrev is_stored : Option Payload → Bool
is_stored none = false
is_stored (some p) = true

-- An error, if the payload was processed before, and the buffer.
unfoldable pub push : Payload → PayloadsBuffer → Option Bytes × PayloadsBuffer
unfolding lookup insert
push payload b =
    if ltb payload.seq_num b.next || is_stored (lookup payload.seq_num b.buf)
    then (some (codes "Payload has been already processed"), b)
    else (
      none,
      record b {
        buf = insert payload.seq_num payload b.buf;
        ready = if nat_eq payload.seq_num b.next then suc b.ready else b.ready;
      },
    )

-- The payload that is next in order, if it has arrived.
unfoldable pub pop : PayloadsBuffer → Option Payload × PayloadsBuffer
unfolding lookup remove
pop b = elim (lookup b.next b.buf) [
  | none ↦ (none, b)
  | some payload ↦
      (some payload, record b { next = (b.next + 1) % 2 ^ 64; buf = remove b.next b.buf })
]

unfoldable pub size : PayloadsBuffer → ℕ
size b = length b.buf
