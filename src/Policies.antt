-- ===== src/Policies.antt =====
-- The policies of a channel, under common.
pub mod Signature
pub mod ImplicitMeta
