-- ===== src/Ata/Select.antt =====
-- `ata_select_device` and `ata_select_drive` of kernel/ata.c. Outside `some` an entry is read past the
-- table, or a name past its array.
use szym_os_kernel.Prelude.{
  ℕ, ◌+◌, Option, some, List, [], ◌∷◌, ℤ, pos, negsuc, ltb_ℤ, ◌==◌, if◌then◌else◌, ◌>>=◌, u8, u16,
  shl, bit_or,
}
use szym_os_kernel.CString.{text_of}
use szym_os_kernel.Ports.{Ports}
use szym_os_kernel.Console.{
  Call, int, str, foreground, format, notice, white, light_green, light_red,
}
use szym_os_kernel.System.{System, say, with_dev}
use szym_os_kernel.Ata.State.{AtaDevice, AtaState}
use szym_os_kernel.Ata.Drives.{out_of_range, drive_at}
use szym_os_kernel.Ata.Wait.{reg_drive, reg_status, is_ready, ata_400ns_delay, ata_wait_bsy}

-- What `ata_select_drive` prints of the drive that it has selected.
abbrev pub selected_lines : ℤ → ℤ → List ℕ → List Call
selected_lines drive_num drive_count model =
    format "[DEBUG] selected_drive set to %d (drive_count=%d)\n"
      (int drive_num ∷ int drive_count ∷ [])
    ∷ foreground light_green
    ∷ format "Selected drive %d: %s\n" (int drive_num ∷ str model ∷ [])
    ∷ foreground white
    ∷ []

module _ {Device : Type 0} (ports : Ports Device) where
  -- `ata_select_device` at an index in range: the entry is `dev`.
  unfoldable pub select_device : AtaDevice → Device → ℤ × Device
  select_device dev d =
      let io_base = dev.io_base in
      let d1 =
        ata_400ns_delay ports io_base
          (ports.outb (u16 (io_base + reg_drive)) (u8 (bit_or 0xA0 (shl dev.drive 4))) d) in
      let (settled, d2) = ata_wait_bsy ports io_base d1 in
      let (status, d3) = ports.inb (u16 (io_base + reg_status)) d2 in
      if ltb_ℤ settled (pos 0)
      then (negsuc 0, d2)
      else if is_ready status
      then (pos 0, d3)
      else (negsuc 0, d3)

  unfoldable pub ata_select_device : ℤ → AtaState → Device → Option (ℤ × Device)
  unfolding select_device
  ata_select_device drive_index a d =
      if out_of_range drive_index a.drive_count
      then some (negsuc 0, d)
      else (drive_at a.drives drive_index >>= λ dev. some (select_device dev d))

  -- What is behind `ata_select_device` in `ata_select_drive`.
  unfoldable pub set_selected : ℤ → AtaDevice → ℤ → System Device → Option (ℤ × System Device)
  set_selected drive_num dev result s =
      if ltb_ℤ result (pos 0)
      then some (negsuc 0, say (notice light_red "ERROR: Failed to select drive!\n") s)
      else (text_of dev.model >>= λ model.
          let a = s.ata in
          some (
            pos 0,
            say (selected_lines drive_num a.drive_count model)
                (record s { ata = record a { selected_drive = drive_num } }),
          ))

  unfoldable pub ata_select_drive : ℤ → System Device → Option (ℤ × System Device)
  unfolding ata_select_device set_selected
  ata_select_drive drive_num s =
      if out_of_range drive_num s.ata.drive_count
      then some (negsuc 0, s)
      else (drive_at s.ata.drives drive_num >>= λ dev.
          if dev.present == 0
          then some (negsuc 0, s)
          else (ata_select_device drive_num s.ata s.dev >>= λ r.
              set_selected drive_num dev r.0 (with_dev r.1 s)))
