-- ===== src/Filesystem/Persist/Frame.antt =====
-- `fs_save_to_disk` and the state in memory.
use szym_os_kernel.Prelude.{ℕ, zero, suc, ◌+◌, ◌*◌, ◌≡◌, List, ◌++◌, arith}
use szym_os_kernel.Prelude.Bytes.{Memory, slice}
use szym_os_kernel.Ports.{Ports}
use szym_os_kernel.System.{System}
use szym_os_kernel.Filesystem.State.{
  fs_start_sector, sector_size, data_size, header_sectors, data_sectors,
}
use szym_os_kernel.Filesystem.Sector.{fs_write_sector_direct, fs_read_sector_direct}
use szym_os_kernel.Filesystem.Layout.{encode_header}
use szym_os_kernel.Filesystem.Persist.{
  save_header, save_data, fs_save_to_disk, sector_buffer, header_sector, copy_size,
}

pub record KeepsFiles {Device : Type 0} (s s' : System Device) : Type 0 where
  pub header : s'.fs.header ≡ s.fs.header
  pub bytes : s'.fs.bytes ≡ s.fs.bytes
  pub initialized : s'.fs.initialized ≡ s.fs.initialized
  pub drive_io_base : s'.fs.drive_io_base ≡ s.fs.drive_io_base
  pub drive_num : s'.fs.drive_num ≡ s.fs.drive_num
  pub drive_selected : s'.fs.drive_selected ≡ s.fs.drive_selected
  pub ata : s'.ata ≡ s.ata

module _ {Device : Type 0} where
  pub KeepsFiles-refl : (s : System Device) → KeepsFiles s s
  KeepsFiles-refl s = ground arith

  pub KeepsFiles-trans : {s t u : System Device} → KeepsFiles s t → KeepsFiles t u → KeepsFiles s u
  KeepsFiles-trans p q = ground arith

module _ {Device : Type 0} (ports : Ports Device) where
  -- A write of a sector changes the device and the output only.
  pub fs-write_sector :
      (lba : ℕ) (buffer : List ℕ) (s : System Device)
      → ((fs_write_sector_direct ports lba buffer s).1.fs ≡ s.fs)
        × ((fs_write_sector_direct ports lba buffer s).1.ata ≡ s.ata)
  unfolding fs_write_sector_direct
  fs-write_sector lba buffer s = ground arith

  pub fs-read_sector :
      (lba : ℕ) (s : System Device)
      → ((fs_read_sector_direct ports lba s).2.fs ≡ s.fs)
        × ((fs_read_sector_direct ports lba s).2.ata ≡ s.ata)
  unfolding fs_read_sector_direct
  fs-read_sector lba s = ground arith

  save_header-KeepsFiles :
      (n i : ℕ) (object : List ℕ) (s : System Device)
      → KeepsFiles s (save_header ports n i object s).1
  unfolding save_header
  save_header-KeepsFiles zero i object s = KeepsFiles-refl s
  save_header-KeepsFiles (suc n) i object s =
      let buffer = header_sector object i in
      let (r, s') = fs_write_sector_direct ports (fs_start_sector + i) buffer s in
      ground (
        arith,
        fs-write_sector (fs_start_sector + i) buffer s,
        save_header-KeepsFiles n (i + 1) object s',
      )

  save_data-KeepsFiles :
      (n i : ℕ) (bytes : Memory) (s : System Device) → KeepsFiles s (save_data ports n i bytes s).1
  unfolding save_data
  save_data-KeepsFiles zero i bytes s = KeepsFiles-refl s
  save_data-KeepsFiles (suc n) i bytes s =
      let buffer =
        sector_buffer (slice bytes (i * sector_size) (copy_size (i * sector_size) data_size)) in
      let (r, s') = fs_write_sector_direct ports (fs_start_sector + header_sectors + i) buffer s in
      ground (
        arith,
        fs-write_sector (fs_start_sector + header_sectors + i) buffer s,
        save_data-KeepsFiles n (i + 1) bytes s',
      )

  -- Saving changes no file in memory, whether it works or not.
  pub fs_save_to_disk-KeepsFiles :
      (behind : List ℕ) (s : System Device) → KeepsFiles s (fs_save_to_disk ports behind s)
  unfolding fs_save_to_disk
  fs_save_to_disk-KeepsFiles behind s =
      let object = encode_header s.fs.header ++ behind in
      let (ok, s1) = save_header ports header_sectors 0 object s in
      ground (
        arith,
        save_header-KeepsFiles header_sectors 0 object s,
        save_data-KeepsFiles data_sectors 0 s.fs.bytes s1,
      )
