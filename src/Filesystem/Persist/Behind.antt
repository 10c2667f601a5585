-- ===== src/Filesystem/Persist/Behind.antt =====
-- What `fs_save_to_disk` of kernel/filesystem.c writes from behind `fs_header`.
use szym_os_kernel.Prelude.{ℕ, ◌+◌, ◌≤◌, ◌<◌, ◌≡◌, ◌∙◌, true, List, ◌++◌, arith, length, get_or}
use szym_os_kernel.Prelude.Index.{AreBytes}
use szym_os_kernel.Ports.{Ports}
use szym_os_kernel.System.{System}
use szym_os_kernel.Ata.Disk.{Disk}
use szym_os_kernel.Filesystem.Layout.{encode_header}
use szym_os_kernel.Filesystem.Layout.RoundTrip.{HeaderFits}
use szym_os_kernel.Filesystem.Sector.Transfer.{Mounted}
use szym_os_kernel.Filesystem.Persist.{disk_available, fs_save_to_disk}
use szym_os_kernel.Filesystem.Persist.HeaderSectors.{header_sector-behind}
use szym_os_kernel.Filesystem.Persist.Save.{fs_save_to_disk-Written}

module _ {Device : Type 0} {ports : Ports Device} {io drive : ℕ} (disk : Disk ports io drive) where
  -- `fs_save_to_disk` reads behind `fs_header` and writes what it finds there. With a selected drive
  -- that keeps the law of `Disk`, a header whose fields fit their C types, bytes in memory and at
  -- least 120 of them behind the header, the last 120 bytes of sector 2050 are, after the save, the
  -- first 120 bytes behind the header.
  pub fs_save_to_disk-behind :
      (behind : List ℕ) (s : System Device) (j : ℕ)
      → Mounted disk s
      → disk_available s ≡ true
      → HeaderFits s.fs.header
      → AreBytes (encode_header s.fs.header ++ behind)
      → ((k : ℕ) → s.fs.bytes k < 256)
      → 120 ≤ length behind
      → j < 120
      → (Disk.drive_of disk (fs_save_to_disk ports behind s).dev).sectors 2050 (392 + j)
        ≡ get_or behind j 0
  fs_save_to_disk-behind behind s j m available header object_fits fits long low =
      let w = fs_save_to_disk-Written disk behind s m available object_fits fits in
      w.header_sectors 2 (392 + j) (omega arith) (omega arith)
      ∙ header_sector-behind s.fs.header behind j header long low
