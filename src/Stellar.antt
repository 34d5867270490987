-- ===== src/Stellar.antt =====
-- src/stellar: the webhook that takes the Soroban contract's events in.
pub mod Events
pub mod Read
pub mod Payment
pub mod Webhook
pub mod Account
