-- ===== src/Filesystem/State.antt =====
-- The data of kernel/filesystem.h and the static variables of kernel/filesystem.c.
use szym_os_kernel.Prelude.{ℕ, ◌+◌, ◌/◌, ◌-◌, Bool, List}
use szym_os_kernel.Prelude.Bytes.{Memory}

abbrev pub szymfs_magic : ℕ
szymfs_magic = 0x535A594D

abbrev pub max_files : ℕ
max_files = 32

abbrev pub max_filename : ℕ
max_filename = 32

abbrev pub max_file_size : ℕ
max_file_size = 4096

abbrev pub sector_size : ℕ
sector_size = 512

abbrev pub fs_start_sector : ℕ
fs_start_sector = 2048

-- `file_entry_t`. `name` is its array of 32 bytes, and `padding` the three bytes that the i386 ABI
-- puts behind `used` to align the next entry.
pub record FileEntry : Type 0 where
  pub name : List ℕ
  pub size : ℕ
  pub offset : ℕ
  pub used : ℕ
  pub padding : List ℕ

abbrev pub entry_size : ℕ
entry_size = 44

-- `filesystem_header_t`
pub record Header : Type 0 where
  pub magic : ℕ
  pub file_count : ℕ
  pub files : List FileEntry

-- `sizeof(filesystem_header_t)`: two words and MAX_FILES entries.
abbrev pub header_size : ℕ
header_size = 1416

-- `sizeof(fs_data)`: MAX_FILES * MAX_FILE_SIZE.
abbrev pub data_size : ℕ
data_size = 131072

-- HEADER_SECTORS and DATA_SECTORS.
abbrev pub header_sectors : ℕ
header_sectors = (header_size + sector_size - 1) / sector_size

abbrev pub data_sectors : ℕ
data_sectors = (data_size + sector_size - 1) / sector_size

-- The static variables. `bytes` is `fs_data`: the byte at each offset below `data_size`.
pub record FsState : Type 0 where
  pub header : Header
  pub bytes : Memory
  pub initialized : Bool
  pub persistent : Bool
  pub drive_io_base : ℕ
  pub drive_num : ℕ
  pub drive_selected : Bool
