-- ===== src/Filesystem/Persist.antt =====
-- `fs_load_from_disk`, `fs_save_to_disk` and `fs_init` of kernel/filesystem.c.
pub mod Frame
pub mod HeaderSectors
pub mod Behind
pub mod Save
pub mod Bytes
pub mod Load
pub mod Copy
use szym_os_kernel.Prelude.{
  ℕ, zero, suc, ◌+◌, ◌-◌, ◌*◌, Bool, true, false, not, List, [], ◌∷◌, ◌++◌, map, pos, eq_ℤ, ltb,
  ◌==◌, if◌then◌else◌, take, drop, replicate, overwrite, set,
}
use szym_os_kernel.Prelude.Bytes.{Memory, slice, memcpy, memset}
use szym_os_kernel.Ports.{Ports}
use szym_os_kernel.Console.{
  Call, uint, foreground, format, notice, light_red, light_green, yellow, white,
}
use szym_os_kernel.System.{System, say, with_fs}
use szym_os_kernel.Ata.Drives.{ata_is_selected}
use szym_os_kernel.Filesystem.State.{
  FileEntry, FsState, szymfs_magic, sector_size, fs_start_sector, header_size, data_size,
  header_sectors, data_sectors,
}
use szym_os_kernel.Filesystem.Sector.{fs_read_sector_direct, fs_write_sector_direct}
use szym_os_kernel.Filesystem.Layout.{encode_header, decode_header}

unfoldable pub disk_available : {Device : Type 0} → System Device → Bool
unfolding ata_is_selected
disk_available s = ata_is_selected s.ata

abbrev pub set_persistent : {Device : Type 0} → Bool → System Device → System Device
set_persistent b s = with_fs (record (s.fs) { persistent = b }) s

-- How much of a sector at `current_offset` still lies in an object of `total_size` bytes; a whole
-- sector from its end on.
abbrev pub copy_size : ℕ → ℕ → ℕ
copy_size current_offset total_size =
    if ltb current_offset total_size
    then (if ltb (total_size - current_offset) sector_size
        then total_size - current_offset
        else sector_size)
    else sector_size

-- `sector_buffer`, cleared by `memset` and filled from its start.
unfoldable pub sector_buffer : List ℕ → List ℕ
unfolding replicate
sector_buffer bytes = overwrite (replicate sector_size 0) bytes

-- `sector_buffer` for sector `i` of the object that starts at `header_ptr`.
unfoldable pub header_sector : List ℕ → ℕ → List ℕ
header_sector object i = sector_buffer (take sector_size (drop (i * sector_size) object))

-- A `memcpy` of `bytes` to an offset of an object.
unfoldable pub copy_to : List ℕ → ℕ → List ℕ → List ℕ
copy_to object offset bytes = take offset object ++ overwrite (drop offset object) bytes

-- What the loop that reads the header does with the buffer of sector `i`: nothing is copied behind
-- the object.
unfoldable pub take_sector : List ℕ → ℕ → List ℕ → List ℕ
take_sector object i buffer =
    let offset = i * sector_size in
    if ltb offset header_size
    then copy_to object offset (take (copy_size offset header_size) buffer)
    else object

-- Fields for the reset that `fs_load_from_disk` and `fs_init` make.
abbrev pub unused : FileEntry → FileEntry
unused e = record e { used = 0 }

abbrev pub empty_entry : FileEntry → FileEntry
empty_entry e = record e { used = 0; name = set e.name 0 0; size = 0; offset = 0 }

-- The empty file system that `fs_init` starts from.
abbrev pub reset_fs : FsState → FsState
reset_fs f = record f {
  header = record { magic = szymfs_magic; file_count = 0; files = map empty_entry f.header.files };
  bytes = memset f.bytes 0 0 data_size;
  initialized = true;
}

module _ {Device : Type 0} (ports : Ports Device) where
  -- The loop that writes the header, from sector `i` on; `object` is the memory from `fs_header` on.
  -- The flag says that no write failed.
  unfoldable pub save_header : ℕ → ℕ → List ℕ → System Device → Bool × System Device
  save_header zero i object s = (true, s)
  save_header (suc n) i object s =
      let (result, s') =
        fs_write_sector_direct ports (fs_start_sector + i) (header_sector object i) s in
      let rest = save_header n (i + 1) object s' in
      let failed : Bool × System Device = (
        false,
        set_persistent false
            (say (notice light_red "[ERROR] Failed to write filesystem header\n") s'),
      ) in
      if eq_ℤ result (pos 0) then rest else failed

  -- The loop that writes `fs_data`.
  unfoldable pub save_data : ℕ → ℕ → Memory → System Device → Bool × System Device
  save_data zero i bytes s = (true, s)
  save_data (suc n) i bytes s =
      let offset = i * sector_size in
      let buffer = sector_buffer (slice bytes offset (copy_size offset data_size)) in
      let (result, s') =
        fs_write_sector_direct ports (fs_start_sector + header_sectors + i) buffer s in
      let rest = save_data n (i + 1) bytes s' in
      let failed : Bool × System Device = (
        false,
        set_persistent false
            (say (notice light_red "[ERROR] Failed to write filesystem data\n") s'),
      ) in
      if eq_ℤ result (pos 0) then rest else failed

  -- `behind` is what the linker puts behind `fs_header`: the third header sector is copied from
  -- memory past its end.
  unfoldable pub fs_save_to_disk : List ℕ → System Device → System Device
  fs_save_to_disk behind s =
      let (header_ok, s1) = save_header header_sectors 0 (encode_header s.fs.header ++ behind) s in
      let (data_ok, s2) = save_data data_sectors 0 s.fs.bytes s1 in
      if not (disk_available s)
      then set_persistent false
          (say (notice yellow "Warning: No disk selected, changes are RAM-only\n") s)
      else if not header_ok
      then s1
      else if not data_ok
      then s2
      else if s2.fs.persistent
      then say (notice light_green "Filesystem saved to disk!\n") s2
      else s2

  -- The loop that reads the header into the object's bytes; the flag says that no read failed.
  unfoldable pub load_header : ℕ → ℕ → List ℕ → System Device → Bool × List ℕ × System Device
  load_header zero i object s = (true, object, s)
  load_header (suc n) i object s =
      let (result, buffer, s') = fs_read_sector_direct ports (fs_start_sector + i) s in
      let rest = load_header n (i + 1) (take_sector object i buffer) s' in
      let failed : Bool × List ℕ × System Device =
        (false, object, say (notice light_red "[ERROR] Failed to read filesystem header\n") s') in
      if eq_ℤ result (pos 0) then rest else failed

  -- The loop that reads `fs_data`; a sector that cannot be read is reported and passed over.
  unfoldable pub load_data : ℕ → ℕ → Memory → System Device → Memory × System Device
  load_data zero i bytes s = (bytes, s)
  load_data (suc n) i bytes s =
      let (result, buffer, s') =
        fs_read_sector_direct ports (fs_start_sector + header_sectors + i) s in
      load_data n (i + 1)
        (if eq_ℤ result (pos 0) then memcpy bytes (i * sector_size) buffer else bytes)
        (if eq_ℤ result (pos 0)
          then s'
          else say (format "[DEBUG] Failed to read data sector %d\n" (uint i ∷ []) ∷ []) s')

  -- A disk without the magic number gets a new file system. The flag is set before the save.
  unfoldable pub create_filesystem : List ℕ → System Device → System Device
  create_filesystem behind s =
      let f = s.fs in
      let fresh = record f {
        header = record { magic = szymfs_magic; file_count = 0; files = map unused f.header.files };
        bytes = memset f.bytes 0 0 data_size;
        persistent = true;
      } in
      let saved = fs_save_to_disk behind (
        with_fs fresh
          (say (notice yellow "[INFO] No existing filesystem found, creating new one\n") s)) in
      if saved.fs.persistent
      then saved
      else say (notice light_red "[WARN] Failed to initialize filesystem on disk\n") saved

  -- The rest of `fs_load_from_disk` when the magic number is right.
  unfoldable pub load_files : System Device → System Device
  load_files s =
      let (bytes, s') =
        load_data data_sectors 0 s.fs.bytes
          (say (format "[DEBUG] Reading %d data sectors...\n" (uint data_sectors ∷ []) ∷ []) s) in
      let report : List Call =
        format "[DEBUG] Data load complete\n" []
        ∷ foreground light_green
        ∷ format "[OK] Loaded %d files from disk\n" (uint s.fs.header.file_count ∷ [])
        ∷ foreground white
        ∷ [] in
      with_fs (record (s'.fs) { bytes = bytes; persistent = true }) (say report s')

  unfoldable pub fs_load_from_disk : List ℕ → System Device → System Device
  fs_load_from_disk behind s =
      let (header_ok, object, s1) = load_header header_sectors 0 (encode_header s.fs.header) s in
      let s2 = with_fs (record (s1.fs) { header = decode_header object }) s1 in
      if not (disk_available s)
      then s
      else if not header_ok
      then s2
      else if s2.fs.header.magic == szymfs_magic
      then load_files s2
      else create_filesystem behind s2

  unfoldable pub fs_init : List ℕ → System Device → System Device
  fs_init behind s =
      let s1 = with_fs (reset_fs s.fs) s in
      let s2 = if disk_available s1 then fs_load_from_disk behind s1 else s1 in
      if disk_available s2
      then say (notice yellow "[OK] SzymFS initialized (persistent mode)\n") s2
      else say (notice yellow "[OK] SzymFS initialized (RAM-only mode)\n") s2
