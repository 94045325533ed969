-- ===== src/Broker.antt =====
-- internal/broker: the unseal service.
pub mod World
pub mod State
pub mod Challenge
pub mod Keys
pub mod Registry
pub mod Identity
pub mod Reconcile
pub mod Signer
pub mod Hook
pub mod Unseal
mod Examples
mod StateExamples
