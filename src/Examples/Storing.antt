-- ===== src/Examples/Storing.antt =====
-- Runs of the message store of gossip, where a higher number replaces a lower one.
use fabric.Prelude.{ℕ, ◌≡◌, refl, List, [], ◌∷◌, ltb, if◌then◌else◌}
use fabric.Gossip.MessageStore.{
  InvalidationResult, message_invalidates, message_invalidated, new_msg_store, add, check_valid,
  size, get,
}
use fabric.Gossip.MessageStore.Compatible.{AllBeside, Call, adding, expiring, run, run-AllBeside}

abbrev newer : ℕ → ℕ → InvalidationResult
newer new old = if ltb old new then message_invalidates else message_invalidated

abbrev calls : List (Call ℕ newer)
calls = adding 0 3 ∷ expiring 20 10 ∷ adding 21 5 ∷ []

run-AllBeside_example :
    AllBeside ℕ newer ((run ℕ newer (new_msg_store ℕ newer) calls).messages)
    × ((add ℕ newer 30 4 (run ℕ newer (new_msg_store ℕ newer) calls)).0
        ≡ check_valid ℕ newer 4 (run ℕ newer (new_msg_store ℕ newer) calls))
run-AllBeside_example = run-AllBeside ℕ newer calls 30 4

-- The expired message 3 was replaced, and is counted still.
stale-size :
    (size ℕ newer (run ℕ newer (new_msg_store ℕ newer) calls) ≡ (1, 1))
    × (get ℕ newer (run ℕ newer (new_msg_store ℕ newer) calls) ≡ 5 ∷ [])
unfolding run size get new_msg_store
stale-size = (refl, refl)
