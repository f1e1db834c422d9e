-- ===== src/Simulator/Calls.antt =====
-- The calls that a chaincode makes of its simulator, one after the other.
use fabric.Prelude.{ℕ, Option, List, [], ◌∷◌}
use fabric.Prelude.Bytes.{Bytes}
use fabric.Prelude.Outcome.{Outcome, ok, ◌>>=◌}
use fabric.StateDb.VersionedDb.{VersionedDb, IsName}
use fabric.RwSet.QueryResults.{Hasher}
use fabric.Simulator.{
  Settings, Simulator, get_state, set_state, get_state_range_scan_iterator, next,
}

-- The calls of a chaincode.
pub data Call : Type 0 where
  read : Bytes → Bytes → Call
  write : Bytes → Bytes → Option Bytes → Call
  scan : Bytes → Bytes → Bytes → Call
  advance : ℕ → Call

abbrev pub InNs : Call → Type 0
InNs (read ns key) = IsName ns
InNs (write ns key value) = IsName ns
InNs (scan ns start_key end_key) = IsName ns
InNs (advance i) = Unit

module _ (db : VersionedDb) (hasher : Hasher) (settings : Settings) where
  abbrev Sim : Type 0
  Sim = Simulator db hasher settings

  unfoldable pub call : Sim → Call → Outcome Sim
  unfolding get_state set_state get_state_range_scan_iterator next
  call s (read ns key) = get_state db hasher settings s ns key >>= λ r. ok r.1
  call s (write ns key value) = set_state db hasher settings s ns key value
  call s (scan ns start_key end_key) =
      get_state_range_scan_iterator db hasher settings s ns start_key end_key >>= λ r. ok r.1
  call s (advance i) = next db hasher settings s i >>= λ r. ok r.1

  unfoldable pub run : Sim → List Call → Outcome Sim
  unfolding call
  run s [] = ok s
  run s (c ∷ calls) = call s c >>= λ s'. run s' calls
