-- ===== src/Redemption.antt =====
-- core/src/redemption.rs: the three tables of the gateway's state, as pure state machines over an
-- explicit clock in milliseconds.
pub mod Leases
pub mod Nonces
pub mod Rates
