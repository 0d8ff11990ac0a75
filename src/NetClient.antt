-- ===== src/NetClient.antt =====
-- crates/net-client: what a visit may fetch.
pub mod SyncMap
pub mod Robots
