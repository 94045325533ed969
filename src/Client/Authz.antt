-- ===== src/Client/Authz.antt =====
-- The write-authorisation gate, one module for each file of its name.
pub mod Diff
pub mod Verdict
pub mod Sig
pub mod Scan
pub mod Inputs
pub mod Command
pub mod Remote
