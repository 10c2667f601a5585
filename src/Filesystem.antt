-- ===== src/Filesystem.antt =====
-- SzymFS: kernel/filesystem.c and kernel/filesystem.h. The children hold the data, the operations,
-- and what is proved of them.
pub mod State
pub mod Files
pub mod Sector
pub mod Layout
pub mod Persist
pub mod Ops
pub mod Directory
pub mod Refine
