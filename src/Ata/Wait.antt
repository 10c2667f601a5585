-- ===== src/Ata/Wait.antt =====
-- The waiting loops of kernel/ata.c.
use szym_os_kernel.Prelude.{
  ℕ, zero, suc, ◌+◌, Bool, not, ℤ, pos, negsuc, ltb, ◌==◌, if◌then◌else◌, u16, bit_and,
}
use szym_os_kernel.Ports.{Ports}

-- The registers, by their distance from `io_base`, the commands and the bits of the status.
abbrev pub reg_seccount : ℕ
reg_seccount = 2

abbrev pub reg_lba_lo : ℕ
reg_lba_lo = 3

abbrev pub reg_lba_mid : ℕ
reg_lba_mid = 4

abbrev pub reg_lba_hi : ℕ
reg_lba_hi = 5

abbrev pub reg_drive : ℕ
reg_drive = 6

abbrev pub reg_status : ℕ
reg_status = 7

abbrev pub cmd_read_pio : ℕ
cmd_read_pio = 0x20

abbrev pub cmd_write_pio : ℕ
cmd_write_pio = 0x30

abbrev pub cmd_identify : ℕ
cmd_identify = 0xEC

-- `status & bit`, as a test.
abbrev pub has_bit : ℕ → ℕ → Bool
has_bit status bit = not (bit_and status bit == 0)

abbrev pub is_busy : ℕ → Bool
is_busy status = has_bit status 0x80

abbrev pub is_ready : ℕ → Bool
is_ready status = has_bit status 0x40

abbrev pub wants_data : ℕ → Bool
wants_data status = has_bit status 0x08

abbrev pub has_error : ℕ → Bool
has_error status = has_bit status 0x01

-- `timeout > 0 ? 0 : -1`
abbrev pub settled : ℕ → ℤ
settled timeout = if ltb 0 timeout then pos 0 else negsuc 0

module _ {Device : Type 0} (ports : Ports Device) where
  -- `while (wanted(inb(port)) && timeout > 0) timeout--;` and the `timeout` that it leaves.
  unfoldable pub poll_while : (ℕ → Bool) → ℕ → ℕ → Device → ℕ × Device
  poll_while wanted port zero d = (0, (ports.inb port d).1)
  poll_while wanted port (suc timeout) d =
      let (status, d') = ports.inb port d in
      let rest = poll_while wanted port timeout d' in
      if wanted status then rest else (suc timeout, d')

  unfoldable pub ata_wait_bsy : ℕ → Device → ℤ × Device
  ata_wait_bsy io_base d =
      let (timeout, d') = poll_while is_busy (u16 (io_base + reg_status)) 100000 d in
      (settled timeout, d')

  unfoldable pub ata_wait_drq : ℕ → Device → ℤ × Device
  ata_wait_drq io_base d =
      let (timeout, d') =
        poll_while (λ status. not (wants_data status)) (u16 (io_base + reg_status)) 100000 d in
      (settled timeout, d')

  -- Four reads of the status.
  unfoldable pub ata_400ns_delay : ℕ → Device → Device
  ata_400ns_delay io_base d =
      let port = u16 (io_base + reg_status) in
      let d1 = (ports.inb port d).1 in
      let d2 = (ports.inb port d1).1 in let d3 = (ports.inb port d2).1 in (ports.inb port d3).1
