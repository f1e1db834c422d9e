-- ===== src/LevelDb.antt =====
-- The state database over LevelDB: the handle of common/ledger/util/leveldbhelper, which keeps many
-- named databases in one, and core/ledger/kvledger/txmgmt/statedb/stateleveldb over it.
pub mod Store
pub mod Prefix
pub mod Handle
pub mod Values
pub mod Versioned
