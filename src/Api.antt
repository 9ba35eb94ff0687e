-- ===== src/Api.antt =====
-- The TypeScript layer of the package (src/*.ts).
pub mod Ulid
pub mod Ksuid
pub mod Encodings
pub mod Uuidv7
