-- ===== src/Ata/State.antt =====
-- The data of kernel/ata.c and kernel/ata.h.
use szym_os_kernel.Prelude.{ℕ, List, ℤ}

-- `ata_device_t`; `model` is its array of 41 bytes.
pub record AtaDevice : Type 0 where
  pub io_base : ℕ
  pub drive : ℕ
  pub present : ℕ
  pub model : List ℕ
  pub size_mb : ℕ
  pub is_removable : ℕ
  pub sectors : ℕ

-- `drives` (MAX_DRIVES entries), `drive_count` and `selected_drive`.
pub record AtaState : Type 0 where
  pub drives : List AtaDevice
  pub drive_count : ℤ
  pub selected_drive : ℤ

abbrev pub max_drives : ℕ
max_drives = 4

abbrev pub primary_io : ℕ
primary_io = 0x1F0

abbrev pub secondary_io : ℕ
secondary_io = 0x170
