-- ===== src/Filesystem/Sector.antt =====
-- `fs_read_sector_direct` and `fs_write_sector_direct` of kernel/filesystem.c: one sector through
-- the ports of the drive that was chosen.
pub mod Wait
pub mod Words
pub mod Transfer
use szym_os_kernel.Prelude.{
  ℕ, zero, suc, ◌+◌, ◌*◌, ◌/◌, ◌%◌, Bool, not, List, [], ◌∷◌, ℤ, pos, negsuc, ltb_ℤ, ◌==◌,
  if◌then◌else◌, u8, u16, shr, shl, bit_and, bit_or, get_or,
}
use szym_os_kernel.Ports.{Ports}
use szym_os_kernel.Console.{write}
use szym_os_kernel.System.{System, say, with_dev}

-- The status bits that the driver waits for.
abbrev pub busy : ℕ → Bool
busy status = not (bit_and status 0x80 == 0)

abbrev pub data_request : ℕ → Bool
data_request status = not (bit_and status 0x08 == 0)

abbrev pub timeout_limit : ℕ
timeout_limit = 100000

-- `sector_buffer[2 k], sector_buffer[2 k + 1]` as the word that the processor reads there.
abbrev pub word_at : List ℕ → ℕ → ℕ
word_at buffer k = get_or buffer (2 * k) 0 + 256 * get_or buffer (2 * k + 1) 0

module _ {Device : Type 0} (ports : Ports Device) where
  -- `while (wanted(inb(port)) && timeout--);` and the `timeout` that it leaves, -1 when the
  -- decrement has passed 0.
  unfoldable pub wait_while : (ℕ → Bool) → ℕ → ℕ → Device → ℤ × Device
  wait_while wanted port zero d =
      let (status, d') = ports.inb port d in (if wanted status then negsuc 0 else pos 0, d')
  wait_while wanted port (suc timeout) d =
      let (status, d') = ports.inb port d in
      let rest = wait_while wanted port timeout d' in
      if wanted status then rest else (pos (suc timeout), d')

  -- The six writes that select the drive, the sector and the command.
  unfoldable pub send_command : ℕ → ℕ → ℕ → ℕ → Device → Device
  send_command io drive lba command d =
      let d1 =
        ports.outb (u16 (io + 6))
          (u8 (bit_or (bit_or 0xE0 (shl drive 4)) (bit_and (shr lba 24) 0x0F))) d in
      let d2 = ports.outb (u16 (io + 2)) 1 d1 in
      let d3 = ports.outb (u16 (io + 3)) (u8 lba) d2 in
      let d4 = ports.outb (u16 (io + 4)) (u8 (shr lba 8)) d3 in
      let d5 = ports.outb (u16 (io + 5)) (u8 (shr lba 16)) d4 in
      ports.outb (u16 (io + 7)) command d5

  -- `for (i = 0; i < n; i++) buf16[i] = inw(io);`, as the bytes that it stores.
  unfoldable pub read_words : ℕ → ℕ → Device → List ℕ × Device
  read_words zero io d = ([], d)
  read_words (suc n) io d =
      let (w, d') = ports.inw io d in
      let (rest, d'') = read_words n io d' in (w % 256 ∷ w / 256 ∷ rest, d'')

  -- `for (; i < i + n; i++) outw(io, buf16[i]);`
  unfoldable pub write_words : ℕ → ℕ → ℕ → List ℕ → Device → Device
  write_words zero i io buffer d = d
  write_words (suc n) i io buffer d =
      write_words n (i + 1) io buffer (ports.outw io (word_at buffer i) d)

  -- The result, and the sector's bytes where the result is 0.
  unfoldable pub fs_read_sector_direct : ℕ → System Device → ℤ × List ℕ × System Device
  fs_read_sector_direct lba s =
      let io = s.fs.drive_io_base in
      let (timeout, d1) = wait_while busy (u16 (io + 7)) timeout_limit s.dev in
      let d2 = send_command io s.fs.drive_num lba 0x20 d1 in
      let (timeout', d3) =
        wait_while (λ st. not (data_request st)) (u16 (io + 7)) timeout_limit d2 in
      let (bytes, d4) = read_words 256 io d3 in
      if not s.fs.drive_selected
      then (negsuc 0, [], s)
      else if ltb_ℤ (pos 0) timeout
      then (if ltb_ℤ (pos 0) timeout'
          then (pos 0, bytes, with_dev d4 s)
          else (negsuc 0, [], with_dev d3 s))
      else (negsuc 0, [], with_dev d1 s)

  unfoldable pub fs_write_sector_direct : ℕ → List ℕ → System Device → ℤ × System Device
  fs_write_sector_direct lba buffer s =
      let io = s.fs.drive_io_base in
      let (timeout, d1) = wait_while busy (u16 (io + 7)) timeout_limit s.dev in
      let d2 = send_command io s.fs.drive_num lba 0x30 d1 in
      let (timeout', d3) =
        wait_while (λ st. not (data_request st)) (u16 (io + 7)) timeout_limit d2 in
      let d4 = write_words 256 0 io buffer d3 in
      let (_, d5) = wait_while busy (u16 (io + 7)) timeout_limit d4 in
      if not s.fs.drive_selected
      then (negsuc 0, s)
      else if ltb_ℤ (pos 0) timeout
      then (if ltb_ℤ (pos 0) timeout'
          then (pos 0, with_dev d5 s)
          else (negsuc 0, say (write "[FS ERROR] Timeout waiting for DRQ\n" ∷ []) (with_dev d3 s)))
      else (negsuc 0, say (write "[FS ERROR] Timeout waiting for ready\n" ∷ []) (with_dev d1 s))
