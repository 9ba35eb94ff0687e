-- ===== src/Cli.antt =====
-- cli/*.mjs: the command-line tool.
pub mod Columns
pub mod Check
pub mod RunCheck
pub mod Extract
pub mod Files
pub mod PolicyFile
pub mod LoadPolicy
pub mod Audit
pub mod Generate
pub mod Inspect
pub mod Dispatch
pub mod Main
