-- ===== src/Ata/Transfer.antt =====
-- `ata_read_sector` and `ata_write_sector` of kernel/ata.c. Outside `some` an entry is read past the
-- table.
pub mod Wait
pub mod Sector
pub mod RoundTrip
use szym_os_kernel.Prelude.{
  ℕ, zero, suc, ◌+◌, ◌*◌, ◌/◌, ◌%◌, ◌||◌, Option, some, List, [], ◌∷◌, ℤ, pos, negsuc, ltb_ℤ, ◌==◌,
  if◌then◌else◌, ◌>>=◌, u8, u16, shr, shl, bit_and, bit_or, get_or,
}
use szym_os_kernel.Ports.{Ports}
use szym_os_kernel.Console.{Call, int, uint, write, format}
use szym_os_kernel.System.{System, say, with_dev}
use szym_os_kernel.Ata.State.{AtaDevice}
use szym_os_kernel.Ata.Drives.{out_of_range, drive_at}
use szym_os_kernel.Ata.Wait.{
  reg_seccount, reg_lba_lo, reg_lba_mid, reg_lba_hi, reg_drive, reg_status, cmd_read_pio,
  cmd_write_pio, ata_wait_bsy, ata_wait_drq, ata_400ns_delay,
}

-- -1 and a message.
abbrev pub fails : {Device : Type 0} → Call → System Device → ℤ × System Device
fails call s = (negsuc 0, say (call ∷ []) s)

module _ {Device : Type 0} (ports : Ports Device) where
  -- The writes that select the drive, the sector and the command.
  unfoldable pub address_sector : AtaDevice → ℕ → ℕ → Device → Device
  address_sector dev lba command d =
      let io_base = dev.io_base in
      let head = bit_or (bit_or 0xE0 (shl dev.drive 4)) (bit_and (shr lba 24) 0x0F) in
      let d1 = ata_400ns_delay ports io_base (ports.outb (u16 (io_base + reg_drive)) (u8 head) d) in
      let d2 = ports.outb (u16 (io_base + reg_seccount)) 1 d1 in
      let d3 = ports.outb (u16 (io_base + reg_lba_lo)) (u8 lba) d2 in
      let d4 = ports.outb (u16 (io_base + reg_lba_mid)) (u8 (shr lba 8)) d3 in
      let d5 = ports.outb (u16 (io_base + reg_lba_hi)) (u8 (shr lba 16)) d4 in
      ports.outb (u16 (io_base + reg_status)) command d5

  -- The loop over the words of a sector, for the bytes that it stores.
  unfoldable pub read_data : ℕ → ℕ → Device → List ℕ × Device
  read_data zero io_base d = ([], d)
  read_data (suc n) io_base d =
      let (w, d1) = ports.inw (u16 io_base) d in
      let (rest, d2) = read_data n io_base d1 in (w % 256 ∷ w / 256 ∷ rest, d2)

  -- `outw(io_base + ATA_REG_DATA, buf16[i])` for the last `n` words, from the index `i` on.
  unfoldable pub write_data : ℕ → ℕ → ℕ → List ℕ → Device → Device
  write_data zero i io_base buffer d = d
  write_data (suc n) i io_base buffer d =
      let w = get_or buffer (2 * i) 0 + 256 * get_or buffer (2 * i + 1) 0 in
      write_data n (i + 1) io_base buffer (ports.outw (u16 io_base) w d)

  unfoldable pub write_to : AtaDevice → ℕ → List ℕ → System Device → ℤ × System Device
  unfolding address_sector write_data
  write_to dev lba buffer s =
      let (free, d1) = ata_wait_bsy ports dev.io_base s.dev in
      let (asked, d2) = ata_wait_drq ports dev.io_base (address_sector dev lba cmd_write_pio d1) in
      let (done, d3) = ata_wait_bsy ports dev.io_base (write_data 256 0 dev.io_base buffer d2) in
      if ltb_ℤ free (pos 0)
      then fails (write "[ATA ERROR] Timeout waiting for BSY\n") (with_dev d1 s)
      else if ltb_ℤ asked (pos 0)
      then fails (write "[ATA ERROR] Timeout waiting for DRQ\n") (with_dev d2 s)
      else if ltb_ℤ done (pos 0)
      then fails (write "[ATA ERROR] Timeout after write\n") (with_dev d3 s)
      else (pos 0, with_dev d3 s)

  -- The result, and the bytes put into the buffer.
  unfoldable pub read_from : AtaDevice → ℕ → System Device → ℤ × List ℕ × System Device
  unfolding address_sector read_data
  read_from dev lba s =
      let (free, d1) = ata_wait_bsy ports dev.io_base s.dev in
      let (asked, d2) = ata_wait_drq ports dev.io_base (address_sector dev lba cmd_read_pio d1) in
      let (bytes, d3) = read_data 256 dev.io_base d2 in
      let failed_free =
        fails (write "[ATA ERROR] Read timeout waiting for BSY\n") (with_dev d1 s) in
      let failed_asked =
        fails (write "[ATA ERROR] Read timeout waiting for DRQ\n") (with_dev d2 s) in
      if ltb_ℤ free (pos 0)
      then (failed_free.0, [], failed_free.1)
      else if ltb_ℤ asked (pos 0)
      then (failed_asked.0, [], failed_asked.1)
      else (pos 0, bytes, with_dev d3 s)

  unfoldable pub ata_write_sector : ℕ → List ℕ → System Device → Option (ℤ × System Device)
  unfolding write_to
  ata_write_sector lba buffer s =
      let a = s.ata in
      if out_of_range a.selected_drive a.drive_count
      then some (fails (write "[DEBUG] Invalid selected_drive index\n") s)
      else (drive_at a.drives a.selected_drive >>= λ dev.
          if dev.present == 0 || dev.io_base == 0
          then some (
              fails
                (format "[DEBUG] Drive %d corrupted: present=%d, io_base=0x%x\n"
                  (int a.selected_drive ∷ uint dev.present ∷ uint dev.io_base ∷ []))
                s)
          else some (
              write_to dev lba buffer (
                say
                  (format "[DEBUG] Writing to drive %d, LBA %d, IO base 0x%x\n"
                      (int a.selected_drive ∷ uint lba ∷ uint dev.io_base ∷ [])
                    ∷ [])
                  s)))

  unfoldable pub ata_read_sector : ℕ → System Device → Option (ℤ × List ℕ × System Device)
  unfolding read_from
  ata_read_sector lba s =
      let a = s.ata in
      let invalid = fails (write "[ATA ERROR] Read - invalid drive index\n") s in
      let corrupted = fails (write "[ATA ERROR] Read - drive data corrupted\n") s in
      if out_of_range a.selected_drive a.drive_count
      then some (invalid.0, [], invalid.1)
      else (drive_at a.drives a.selected_drive >>= λ dev.
          if dev.present == 0 || dev.io_base == 0
          then some (corrupted.0, [], corrupted.1)
          else some (read_from dev lba s))
