-- ===== src/Validator.antt =====
-- core/ledger/kvledger/txmgmt/validator/statebasedval
pub mod Combined
pub mod RangeQuery
pub mod Mvcc
pub mod Block
