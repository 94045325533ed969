-- ===== src/Crypto.antt =====
-- internal/crypto: sealing and opening an envelope, its headers, and the wrapping of keys.
pub mod Errors
pub mod Headers
pub mod Seal
mod Frame
mod Examples
pub mod Roundtrip
pub mod RoundtripV4
pub mod Refusals
pub mod Open
pub mod KeyWrap
pub mod Stanzas
