-- ===== src/Client.antt =====
-- The client: bundles, the write-authorisation gate, the audit and authoring (`internal/client`).
pub mod Bundle
pub mod Config
pub mod Authz
pub mod Verify
pub mod Author
pub mod Materialize
pub mod Delivery
pub mod Sign
pub mod Rotate
pub mod Migrate
pub mod KeyFile
pub mod Mint
pub mod Render
pub mod Snapshot
mod Examples
mod AuthorExamples
mod BundleExamples
mod MigrateExamples
mod KeyExamples
