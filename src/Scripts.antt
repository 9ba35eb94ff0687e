-- ===== src/Scripts.antt =====
-- The build scripts (scripts/*.mjs).
pub mod PostBuild
