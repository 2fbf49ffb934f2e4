-- ===== src/Release.antt =====
-- src/release/identity.rs: the canonical encoding of a design, from which its identity is hashed.
pub mod Encoder
pub mod Prefix
pub mod Parts
pub mod Physical
pub mod Intent
pub mod Product
pub mod Whole
pub mod Value
mod Tests
