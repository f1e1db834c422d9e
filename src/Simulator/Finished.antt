-- ===== src/Simulator/Finished.antt =====
-- A simulation whose results were returned.
use fabric.Prelude.{◌≡◌, Option}
use fabric.Prelude.Bytes.{Bytes}
use fabric.Prelude.Outcome.{Outcome, ok, panic}
use fabric.StateDb.VersionedDb.{VersionedDb}
use fabric.RwSet.{TxRwSet}
use fabric.RwSet.QueryResults.{Hasher}
use fabric.Simulator.{
  Settings, Simulator, get_state, set_state, delete_state, get_state_range_scan_iterator,
  get_tx_simulation_results,
}

module _ (db : VersionedDb) (hasher : Hasher) (settings : Settings) where
  abbrev Sim : Type 0
  Sim = Simulator db hasher settings

  -- What the simulator does that has nothing to do any more.
  pub record IsFinished (s : Sim) (tx : TxRwSet) : Type 0 where
    pub no_get_state : (ns key : Bytes) → get_state db hasher settings s ns key ≡ panic
    pub no_set_state :
        (ns key : Bytes) (value : Option Bytes)
        → set_state db hasher settings s ns key value ≡ panic
    pub no_delete_state : (ns key : Bytes) → delete_state db hasher settings s ns key ≡ panic
    pub no_scan :
        (ns start_key end_key : Bytes)
        → get_state_range_scan_iterator db hasher settings s ns start_key end_key ≡ panic
    pub same_results : get_tx_simulation_results db hasher settings s ≡ ok (tx, s)
