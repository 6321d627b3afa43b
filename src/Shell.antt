-- ===== src/Shell.antt =====
-- The text scanners of the virtual shell.
pub mod Words
pub mod Split
pub mod Redirect
mod Examples
