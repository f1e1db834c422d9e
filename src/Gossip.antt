-- ===== src/Gossip.antt =====
-- The gossip component of a peer, under gossip.
pub mod PayloadsBuffer
pub mod MessageStore
