-- ===== src/Examples/Consenting.antt =====
-- Runs of the consenter of one process.
use fabric.Prelude.{◌≡◌, refl, Bool, false, [], ◌∷◌, some}
use fabric.Prelude.Bytes.{codes}
use fabric.Prelude.Outcome.{Outcome, ok}
use fabric.Orderer.Filter.{Envelope, empty_reject_rule, max_bytes_rule, accept_rule}
use fabric.Orderer.Solo.{Chain, Reaches, start, message, new_chain, on_message}
use fabric.Orderer.Solo.Reachable.{IsChain, reaches-IsChain}
use fabric.Examples.Ordering.{isolated, batch_size, filters, small, filters-ne-none}

abbrev or_new : Outcome (Chain Bool) → Chain Bool
or_new (ok s) = s
or_new _ = new_chain Bool isolated batch_size filters

-- One message is pending and the timer runs.
abbrev waiting : Chain Bool
waiting =
    or_new (
      on_message Bool isolated batch_size filters small
        (new_chain Bool isolated batch_size filters))

waiting-Reaches : Reaches Bool isolated batch_size filters (small ∷ []) waiting
unfolding new_chain on_message empty_reject_rule max_bytes_rule accept_rule
waiting-Reaches =
    message {s = new_chain Bool isolated batch_size filters} {s' = waiting} small start refl

reaches-IsChain_example : IsChain Bool isolated batch_size filters (small ∷ []) waiting
reaches-IsChain_example =
    reaches-IsChain Bool isolated batch_size filters filters-ne-none (small ∷ []) waiting
      waiting-Reaches

-- A message of eight bytes overflows the batch that is pending: that is cut, the message is pending
-- behind it, and no timer runs.
abbrev middle : Envelope
middle = record { payload = some (codes "abcdefg"); signature = codes "s" }

abbrev overflown : Chain Bool
overflown = or_new (on_message Bool isolated batch_size filters middle waiting)

overflown-waits : (overflown.receiver.pending_batch ≡ middle ∷ []) × (overflown.timer ≡ false)
unfolding new_chain on_message empty_reject_rule max_bytes_rule accept_rule
overflown-waits = (refl, refl)
