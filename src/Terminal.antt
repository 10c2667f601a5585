-- ===== src/Terminal.antt =====
-- The screen: kernel/terminal.c and kernel/terminal.h. The children hold the state and `putchar`,
-- the formatted output, and what is proved of them.
pub mod Screen
pub mod Printf
pub mod Replay
