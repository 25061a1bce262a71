-- ===== src/Xtask.antt =====
-- crates/xtask/src/main.rs: the tasks of the repository. A text is its UTF-8 bytes.
pub mod Files
pub mod Walk
pub mod Placeholders
pub mod Shell
pub mod Tables
pub mod Codegen
pub mod Twice
pub mod Process
pub mod Ci
mod Tests
