-- ===== src/Base.antt =====
-- What the programs' parts share: native/src/base, and what they use of Rust's standard library.
pub mod Text
pub mod Order
pub mod Map
pub mod Utf8
pub mod Outcome
