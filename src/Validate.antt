-- ===== src/Validate.antt =====
-- src/design.rs: `Design::validate`, in parts.
pub mod Report
pub mod Names
pub mod Envelope
pub mod Nets
pub mod Routing
pub mod Value
pub mod Part
pub mod Physical
pub mod Component
pub mod Digits
pub mod Grid
pub mod Product
pub mod Intent
pub mod Assertion
pub mod Whole
mod Sample
pub mod Clean
pub mod Passed
pub mod Ready
pub mod Unique
pub mod Bounded
pub mod Routable
pub mod Limits
pub mod Ordered
pub mod Runs
mod Tests
