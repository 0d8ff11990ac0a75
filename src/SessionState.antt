-- ===== src/SessionState.antt =====
-- crates/session-state: what a browsing session remembers.
pub mod IndexMap
pub mod Cookie
pub mod Proxy
pub mod Grease
