-- ===== src/Orderer.antt =====
-- The ordering service's side that decides what goes into a block, under orderer/common.
pub mod Filter
pub mod Cutter
pub mod Solo
