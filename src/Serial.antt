-- ===== src/Serial.antt =====
-- The serial port, kernel/serial.h. The loops that wait for the port run for at most `polls` rounds;
-- `none` if that is not enough, or for a read past a string.
use szym_os_kernel.Prelude.{
  ℕ, zero, suc, ◌+◌, Bool, not, Option, none, some, List, [], ◌∷◌, ◌==◌, if◌then◌else◌, ◌>>=◌,
  bit_and,
}
use szym_os_kernel.Ports.{Ports}
use szym_os_kernel.Console.{Call, write}

abbrev pub port : ℕ
port = 0x3F8

module _ {Device : Type 0} (ports : Ports Device) where
  -- What it prints, and the device.
  unfoldable pub serial_init : Device → List Call × Device
  serial_init d =
      let d1 = ports.outb (port + 1) 0x00 d in
      let d2 = ports.outb (port + 3) 0x80 d1 in
      let d3 = ports.outb (port + 0) 0x03 d2 in
      let d4 = ports.outb (port + 1) 0x00 d3 in
      let d5 = ports.outb (port + 3) 0x03 d4 in
      let d6 = ports.outb (port + 2) 0xC7 d5 in
      let d7 = ports.outb (port + 4) 0x0B d6 in
      let d8 = ports.outb (port + 4) 0x1E d7 in
      let d9 = ports.outb (port + 0) 0xAE d8 in
      let (answer, d10) = ports.inb (port + 0) d9 in
      (
        if answer == 0xAE then [] else write "Connection Failed" ∷ [],
        ports.outb (port + 4) 0x0F d10,
      )

  -- `inb(PORT + 5) & 0x20` and `inb(PORT + 5) & 0x01`, as tests.
  abbrev pub transmit_via_empty : Device → Bool × Device
  transmit_via_empty d =
      let (status, d') = ports.inb (port + 5) d in (not (bit_and status 0x20 == 0), d')

  abbrev pub receive_via_empty : Device → Bool × Device
  receive_via_empty d =
      let (status, d') = ports.inb (port + 5) d in (not (bit_and status 0x01 == 0), d')

  -- `while (ready() == 0);`
  unfoldable pub wait_until : (Device → Bool × Device) → ℕ → Device → Option Device
  wait_until ready zero d = none
  wait_until ready (suc polls) d =
      let (is_set, d') = ready d in
      let rest = wait_until ready polls d' in if is_set then some d' else rest

  abbrev pub write_serial : ℕ → ℕ → Device → Option Device
  write_serial polls a d =
      wait_until transmit_via_empty polls d >>= λ d'. some (ports.outb port a d')

  abbrev pub read_serial : ℕ → Device → Option (ℕ × Device)
  read_serial polls d = wait_until receive_via_empty polls d >>= λ d'. some (ports.inb port d')

  unfoldable pub serial_print : ℕ → List ℕ → Device → Option Device
  unfolding wait_until
  serial_print polls [] d = none
  serial_print polls (c ∷ str) d =
      let rest = write_serial polls c d >>= λ d'. serial_print polls str d' in
      if c == 0 then some d else rest

  -- The loop of `serial_read` with room for `n` bytes: the bytes stored in front of the terminator.
  unfoldable pub read_bytes : ℕ → ℕ → Device → Option (List ℕ × Device)
  unfolding wait_until
  read_bytes zero polls d = some ([], d)
  read_bytes (suc n) polls d = read_serial polls d >>= λ r.
      let rest = read_bytes n polls r.1 >>= λ more. some (r.0 ∷ more.0, more.1) in
      if r.0 == 0 then some ([], r.1) else rest
