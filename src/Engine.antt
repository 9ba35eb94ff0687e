-- ===== src/Engine.antt =====
-- The Rust engine (crates/core/src): the parts that the JavaScript layer calls into.
pub mod Error
pub mod Alphabet
pub mod Radix
pub mod Crockford
pub mod Bytes
pub mod Ulid
pub mod Uuidv7
pub mod Convert
pub mod Ksuid
pub mod Sortable
pub mod Base64url
pub mod Base58
pub mod Monotonic
pub mod Batch
pub mod Rng
