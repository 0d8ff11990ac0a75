-- ===== src/CoreUtils.antt =====
-- crates/core-utils: text and byte helpers that the other crates share.
pub mod Encoding
pub mod Url
pub mod Search
pub mod Binary
pub mod Dates
pub mod Rng
pub mod Numbers
