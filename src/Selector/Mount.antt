-- ===== src/Selector/Mount.antt =====
-- What the selection of a drive hands over to the file system.
use szym_os_kernel.Prelude.{
  ℕ, ◌<◌, ◌≡◌, refl, ap, ◌⊎◌, inl, inr, true, false, some, arith, pos, get_elem?,
}
use szym_os_kernel.Ports.{Ports}
use szym_os_kernel.Console.{notice, light_red}
use szym_os_kernel.System.{System, say}
use szym_os_kernel.Ata.State.{AtaDevice, AtaState}
use szym_os_kernel.Ata.Drives.{ata_get_drive, out_of_range}
use szym_os_kernel.Ata.Detect.{AreDetected}
use szym_os_kernel.Ata.Selected.{ata_select_drive-Selects}
use szym_os_kernel.Filesystem.State.{FsState}
use szym_os_kernel.Filesystem.Ops.{fs_set_drive_info}
use szym_os_kernel.Selector.{mount_drive, mounted_lines}

-- The drive that the file system uses is the entry of the table that the driver has selected; or
-- nothing is selected that was not before.
pub record Mounts {Device : Type 0} (k : ℕ) (s s' : System Device) : Type 0 where
  pub outcome :
      ((dev : AtaDevice) × (get_elem? s.ata.drives k ≡ some dev)
        × (s'.ata ≡ record (s.ata) { selected_drive = pos k })
        × (s'.fs ≡ record (s.fs) {
          drive_io_base = dev.io_base;
          drive_num = dev.drive;
          drive_selected = true;
        }))
      ⊎ (s'.ata ≡ s.ata) × (s'.fs ≡ s.fs)

pub Mounts-same :
    {Device : Type 0} {i : ℕ} {s s1 s2 : System Device}
    → s1.ata ≡ s.ata
    → s1.fs ≡ s.fs
    → Mounts i s1 s2
    → Mounts i s s2
Mounts-same a f m = record { outcome = rw (← a, ← f) m.outcome }

pub ata_get_drive-entry :
    (k n : ℕ) (a : AtaState) (dev : AtaDevice)
    → a.drive_count ≡ pos n
    → k < n
    → get_elem? a.drives k ≡ some dev
    → ata_get_drive a (pos k) ≡ some dev
unfolding ata_get_drive
ata_get_drive-entry k n a dev count low at =
    let inside : out_of_range (pos k) a.drive_count ≡ false = ground (arith, count) in
    rw (inside, at)

module _ {Device : Type 0} (ports : Ports Device) where
  -- Where the entries below the count are of drives that have answered, and the number is below it, the
  -- selection follows no null pointer and reads nothing out of range. Either the drive is selected
  -- in the driver and the file system has the channel and the number of just that drive, or neither
  -- of the two has changed.
  pub mount_drive-Mounts :
      (k n : ℕ) (s : System Device)
      → s.ata.drive_count ≡ pos n
      → k < n
      → AreDetected n s.ata.drives
      → (s' : System Device) × (mount_drive ports (pos k) s ≡ some s') × Mounts k s s'
  unfolding mount_drive fs_set_drive_info
  mount_drive-Mounts k n s count low known =
      let (dev, at, det) = known k low in
      let (r, selects, leaves) = ata_select_drive-Selects ports (pos k) n s count known in
      elim leaves.outcome [
        | inl (zero_code, ata, _, _, _) ↦
            let entry : ata_get_drive r.1.ata (pos k) ≡ some dev = rw ata (
              ata_get_drive-entry k n (record (s.ata) { selected_drive = pos k }) dev count low
                at) in
            (
              say mounted_lines (fs_set_drive_info dev.io_base dev.drive r.1),
              rw selects (rw (zero_code, entry) refl),
              record {
                outcome = inl (
                  dev,
                  at,
                  ata,
                  ap
                      (λ (f : FsState). record f {
                        drive_io_base = dev.io_base;
                        drive_num = dev.drive;
                        drive_selected = true;
                      })
                      leaves.files,
                );
              },
            )
        | inr (failed, ata) ↦ (
          say (notice light_red "Error selecting drive!\n\n") r.1,
          rw selects (rw failed refl),
          record { outcome = inr (ata, leaves.files) },
        )
      ]
