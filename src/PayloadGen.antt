-- ===== src/PayloadGen.antt =====
-- crates/payload-gen: the cursors that make input events, and the hub that lets those of many tabs
-- take turns.
pub mod Cursors
pub mod Batcher
pub mod InputHub
