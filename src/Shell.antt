-- ===== src/Shell.antt =====
-- The shell, kernel/shell.c.
pub mod Text
pub mod Line
pub mod Files
pub mod Calc
pub mod Screens
pub mod Dispatch
pub mod Run
pub mod Enter
pub mod Session
pub mod Stream
