-- ===== src/Ata/Drives.antt =====
-- The functions of kernel/ata.c that only read or reset its variables.
use szym_os_kernel.Prelude.{
  Bool, not, ◌||◌, Option, none, List, map, ℤ, pos, negsuc, ltb_ℤ, if◌then◌else◌, get_elem?,
}
use szym_os_kernel.Ata.State.{AtaDevice, AtaState}

abbrev pub cleared : AtaDevice → AtaDevice
cleared d = record d { present = 0; io_base = 0 }

-- `ata_init` clears `present` and `io_base` and keeps the other fields.
unfoldable pub ata_init : AtaState → AtaState
ata_init a = record {
  drives = map cleared a.drives;
  drive_count = pos 0;
  selected_drive = negsuc 0;
}

unfoldable pub ata_is_selected : AtaState → Bool
ata_is_selected a = not (ltb_ℤ a.selected_drive (pos 0))

unfoldable pub ata_get_drive_count : AtaState → ℤ
ata_get_drive_count a = a.drive_count

-- `index < 0 || index >= drive_count`
abbrev pub out_of_range : ℤ → ℤ → Bool
out_of_range index count = ltb_ℤ index (pos 0) || not (ltb_ℤ index count)

-- `drives[index]` at an index that the callers have tested.
abbrev pub drive_at : List AtaDevice → ℤ → Option AtaDevice
drive_at drives (pos i) = get_elem? drives i
drive_at drives (negsuc i) = none

-- `none` is the null pointer.
unfoldable pub ata_get_drive : AtaState → ℤ → Option AtaDevice
ata_get_drive a index = if out_of_range index a.drive_count then none else drive_at a.drives index
