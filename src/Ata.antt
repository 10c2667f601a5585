-- ===== src/Ata.antt =====
-- The ATA driver, kernel/ata.c and kernel/ata.h.
pub mod State
pub mod Drives
pub mod Disk
pub mod Wait
pub mod Identify
pub mod Detect
pub mod Print
pub mod Select
pub mod Selected
pub mod Transfer
