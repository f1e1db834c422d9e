-- ===== src/Examples/Reordering.antt =====
-- Concrete runs of the buffer of payloads.
use fabric.Prelude.{◌≡◌, ◌⊎◌, refl, some, List, [], ◌∷◌, arith, nat_Eq}
use fabric.Prelude.Bytes.{codes}
use fabric.Prelude.Assoc.{lookup, insert}
use fabric.Gossip.PayloadsBuffer.{Payload, PayloadsBuffer, push, pop}
use fabric.Gossip.PayloadsBuffer.Order.{Op, push_op, pop_op, run, IsBuffer, InOrder, run-InOrder}
use fabric.Gossip.PayloadsBuffer.Keeps.{IsIn, run-keeps}

abbrev fifth : Payload
fifth = record { seq_num = 5; block = codes "e" }

abbrev sixth : Payload
sixth = record { seq_num = 6; block = codes "f" }

-- The sixth arrives first.
abbrev ops : List Op
ops = push_op sixth ∷ pop_op ∷ push_op fifth ∷ push_op fifth ∷ pop_op ∷ pop_op ∷ pop_op ∷ []

abbrev at_five : PayloadsBuffer
at_five = record { next = 5; buf = []; ready = 0 }

abbrev holds_sixth : PayloadsBuffer
holds_sixth = record { next = 5; buf = (6, sixth) ∷ []; ready = 0 }

in_order : (run ops at_five).0 ≡ fifth ∷ sixth ∷ []
unfolding run push pop lookup insert
in_order = refl

at_five-IsBuffer : IsBuffer at_five
unfolding lookup
at_five-IsBuffer = record { own_number = λ k p e. cc; not_below = λ k p e. cc }

run-InOrder_example : InOrder at_five (run ops at_five)
run-InOrder_example = run-InOrder ops at_five at_five-IsBuffer (omega arith)

run-keeps_example :
    (lookup 6 (run ops holds_sixth).1.buf ≡ some sixth) ⊎ IsIn sixth (run ops holds_sixth).0
unfolding lookup
run-keeps_example = run-keeps ops holds_sixth 6 sixth refl
