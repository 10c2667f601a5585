-- ===== src/Tests/Ata.antt =====
-- The detection of drives on a machine with one drive that answers.
use szym_os_kernel.Prelude.{
  ℕ, zero, suc, inl, ◌≡◌, refl, some, List, [], ◌∷◌, ◌++◌, arith, ℤ, pos, negsuc, replicate, get_or,
  ◌<◌, length-replicate,
}
use szym_os_kernel.CString.{codes}
use szym_os_kernel.Ata.State.{AtaDevice, AtaState}
use szym_os_kernel.Ata.Identify.{
  trim_spaces, model_string, sector_count, identified, model_bytes, ata_detect_drives,
}
use szym_os_kernel.Prelude.Bytes.{slice}
use szym_os_kernel.Ata.Transfer.{ata_read_sector, ata_write_sector}
use szym_os_kernel.Ata.Transfer.Sector.{Selected}
use szym_os_kernel.Ata.Transfer.RoundTrip.{
  ata_read_sector-ata_write_sector, ata_read_sector-fs_read_sector_direct,
}
use szym_os_kernel.Filesystem.Sector.{fs_read_sector_direct}
use szym_os_kernel.Filesystem.Sector.Transfer.{Mounted}
use szym_os_kernel.Ata.Detect.{AreDetected, Detects, ata_detect_drives-Detects}
use szym_os_kernel.Tests.Disk.{prompt_ports, prompt_disk}
use szym_os_kernel.Tests.Reboot.{fresh_drive, saved}
use szym_os_kernel.Ata.Disk.{Drive, Disk}
use szym_os_kernel.System.{System, with_dev}
use szym_os_kernel.Ata.Select.{ata_select_drive}
use szym_os_kernel.Ata.Selected.{Selects, ata_select_drive-Selects}

abbrev pub unknown : AtaDevice
unknown = record {
  io_base = 0;
  drive = 0;
  present = 0;
  model = replicate 41 0;
  size_mb = 0;
  is_removable = 0;
  sectors = 0;
}

abbrev before : AtaState
before = record {
  drives = unknown ∷ unknown ∷ unknown ∷ unknown ∷ [];
  drive_count = pos 0;
  selected_drive = negsuc 0;
}

-- The words of an identification: a name with spaces behind it, and 4096 sectors.
abbrev words : List ℕ
words =
    replicate 27 0
    ++ (0x5642 ∷ 0x4F58 ∷ replicate 18 0x2020 ++ (replicate 13 0 ++ (4096 ∷ replicate 195 0)))

model_string_test : model_string words ≡ codes "VBOX" ++ replicate 37 0
unfolding model_string model_bytes trim_spaces replicate
model_string_test = refl

identified_test : (identified words unknown).size_mb ≡ 2
unfolding identified sector_count replicate
identified_test = refl

ata_detect_drives-Detects_example :
    (r : ℤ × AtaState × Drive) × (ata_detect_drives prompt_ports before fresh_drive ≡ some r)
    × Detects prompt_ports before r
ata_detect_drives-Detects_example = ata_detect_drives-Detects prompt_ports before fresh_drive refl

abbrev pub named : AtaDevice
named = record {
  io_base = 0x1F0;
  drive = 0;
  present = 1;
  model = codes "VBOX" ++ replicate 37 0;
  size_mb = 2;
  is_removable = 0;
  sectors = 4096;
}

abbrev pub machine : System Drive
machine = record (saved) {
  ata = record {
    drives = named ∷ unknown ∷ unknown ∷ unknown ∷ [];
    drive_count = pos 1;
    selected_drive = negsuc 0;
  };
}

pub machine-AreDetected : AreDetected 1 machine.ata.drives
unfolding replicate
machine-AreDetected zero h = (
  named,
  refl,
  record {
    is_present = refl;
    channel = inl refl;
    number = omega arith;
    name_size = refl;
    name_ends = refl;
    size_right = refl;
  },
)
machine-AreDetected (suc i) h = absurd (omega arith)

ata_select_drive-Selects_example :
    (r : ℤ × System Drive) × (ata_select_drive prompt_ports (pos 0) machine ≡ some r)
    × Selects prompt_ports (pos 0) 1 machine r
ata_select_drive-Selects_example =
    ata_select_drive-Selects prompt_ports (pos 0) 1 machine refl machine-AreDetected

-- The machine with its drive selected in the driver and handed over to the file system.
abbrev chosen : System Drive
chosen = record machine { ata = record (machine.ata) { selected_drive = pos 0 }; dev = fresh_drive }

chosen-Selected : Selected prompt_disk 0 1 named chosen
unfolding prompt_disk
chosen-Selected = record {
  selected = refl;
  count = refl;
  low = omega arith;
  entry = refl;
  present = refl;
  base = refl;
  channel = refl;
  number = refl;
  at_rest = refl;
}

chosen-Mounted : Mounted prompt_disk chosen
unfolding prompt_disk
chosen-Mounted = record { selected = refl; base = refl; number = refl; at_rest = refl }

abbrev stars : List ℕ
stars = replicate 512 b'*'

stars_fit : (n j : ℕ) → get_or (replicate n b'*') j 0 < 256
unfolding replicate
stars_fit zero j = omega arith
stars_fit (suc n) zero = omega arith
stars_fit (suc n) (suc j) = stars_fit n j

ata_read_sector-ata_write_sector_example :
    (s1 s2 : System Drive) × (ata_write_sector prompt_ports 7 stars chosen ≡ some (pos 0, s1))
    × (ata_read_sector prompt_ports 7 s1 ≡ some (pos 0, stars, s2))
unfolding prompt_disk
ata_read_sector-ata_write_sector_example =
    ata_read_sector-ata_write_sector prompt_disk 0 1 7 7 stars named chosen (omega arith)
      (omega arith) (length-replicate {A = ℕ} 512 b'*') (stars_fit 512) chosen-Selected

ata_read_sector-fs_read_sector_direct_example :
    (d1 d2 : Drive) × (ata_read_sector prompt_ports 2048 chosen
      ≡ some (pos 0, (fs_read_sector_direct prompt_ports 2048 chosen).1, with_dev d1 chosen))
    × (fs_read_sector_direct prompt_ports 2048 chosen ≡ (
      pos 0,
      slice ((Disk.drive_of prompt_disk chosen.dev).sectors 2048) 0 512,
      with_dev d2 chosen,
    ))
    × ((Disk.drive_of prompt_disk d1).sectors ≡ (Disk.drive_of prompt_disk chosen.dev).sectors)
    × ((Disk.drive_of prompt_disk d2).sectors ≡ (Disk.drive_of prompt_disk chosen.dev).sectors)
unfolding prompt_disk
ata_read_sector-fs_read_sector_direct_example =
    ata_read_sector-fs_read_sector_direct prompt_disk 0 1 2048 named chosen (omega arith)
      chosen-Selected chosen-Mounted
