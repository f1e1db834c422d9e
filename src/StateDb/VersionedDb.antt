-- ===== src/StateDb/VersionedDb.antt =====
-- The interface `VersionedDB` of statedb.go, as far as the validation of a block reads it, and what
-- a database promises there.
use fabric.Prelude.{◌≡◌, ◌<◌, Option, List, All}
use fabric.Prelude.Bytes.{Bytes}
use fabric.Prelude.Outcome.{Outcome, ok}
use fabric.StateDb.{VersionedValue, VersionedKv}
use fabric.StateDb.Scan.{in_range, IsScan, Yields}

pub record VersionedDb : Type 1 where
  pub Itr : Type 0
  pub get_state : Bytes → Bytes → Outcome (Option VersionedValue)
  pub get_state_range_scan_iterator : Bytes → Bytes → Bytes → Outcome Itr
  pub next_item : Itr → Outcome (Option VersionedKv × Itr)

-- A namespace is the name of a chaincode, and has no zero byte.
abbrev pub IsName : Bytes → Type 0
IsName = All (λ b. 0 < b)

-- The database answers, with the contents `state`, and its scans of a namespace are those of the contents.
pub record Serves (db : VersionedDb) (state : Bytes → Bytes → Option VersionedValue) : Type 0 where
  pub get_state_ok : (ns key : Bytes) → db.get_state ns key ≡ ok (state ns key)
  pub scan_ok :
      (ns start_key end_key : Bytes)
      → IsName ns
      → (itr : db.Itr) × (l : List VersionedKv) × (db.get_state_range_scan_iterator ns start_key
            end_key
          ≡ ok itr)
        × Yields db.next_item itr l
        × IsScan ns (in_range start_key end_key) (state ns) l
