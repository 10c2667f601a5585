-- ===== src/Ata/Disk.antt =====
-- An ATA drive behind the ports of its channel, as the ATA documents describe 28-bit PIO transfers
-- of one sector. No code of the repository implements it: what the driver relies on are the laws.
use szym_os_kernel.Prelude.{
  ℕ, ◌+◌, ◌-◌, ◌*◌, ◌/◌, ◌%◌, ◌<◌, ◌≤◌, ◌≡◌, Bool, true, false, ◌&&◌, ◌==◌, if◌then◌else◌, bit_and,
}
use szym_os_kernel.Ports.{Ports}

-- Where a command stands: the sector, and the index of the next word to be transferred.
pub data Phase : Type 0 where
  idle : Phase
  reading : ℕ → ℕ → Phase
  writing : ℕ → ℕ → Phase

abbrev pub is_idle : Phase → Bool
is_idle idle = true
is_idle (reading lba k) = false
is_idle (writing lba k) = false

-- The registers of the drive, and the byte at each offset of each of its sectors.
pub record Drive : Type 0 where
  pub head : ℕ
  pub count : ℕ
  pub lo : ℕ
  pub mid : ℕ
  pub hi : ℕ
  pub phase : Phase
  pub sectors : ℕ → ℕ → ℕ

-- The registers address one sector, by its number, of the drive with the given number.
abbrev pub Addresses : ℕ → ℕ → Drive → Type 0
Addresses drive lba v =
    (v.head ≡ 224 + 16 * drive + lba / 16777216)
    × (v.count ≡ 1)
    × (v.lo ≡ lba % 256)
    × (v.mid ≡ lba / 256 % 256)
    × (v.hi ≡ lba / 65536 % 256)

-- The phase behind the word `k`; a sector has 256.
abbrev pub read_on : ℕ → ℕ → Phase
read_on lba k = if k == 255 then idle else reading lba (k + 1)

abbrev pub write_on : ℕ → ℕ → Phase
write_on lba k = if k == 255 then idle else writing lba (k + 1)

-- The word `k` of a sector takes its bytes `2 k` and `2 k + 1`, the low byte first.
abbrev pub word : (ℕ → ℕ) → ℕ → ℕ
word bytes k = bytes (2 * k) + 256 * bytes (2 * k + 1)

unfoldable pub put_word : ℕ → ℕ → ℕ → (ℕ → ℕ → ℕ) → ℕ → ℕ → ℕ
put_word lba k w sectors l i =
    if l == lba && i == 2 * k
    then w % 256
    else if l == lba && i == 2 * k + 1
    then w / 256
    else sectors l i

-- The drive has `capacity` sectors, those of the file system among them, and not more than 28 bits
-- address. `polls` is how often the status will still be read as busy: fewer times than the driver waits.
pub record Disk {Device : Type 0} (ports : Ports Device) (io drive : ℕ) : Type 0 where
  pub drive_of : Device → Drive
  pub polls : Device → ℕ
  pub capacity : ℕ
  pub capacity_fits : capacity ≤ 268435456
  pub room : 2307 ≤ capacity
  pub io_fits : io + 7 < 65536
  pub drive_fits : drive < 2
  pub prompt : (d : Device) → polls d < 100000
  pub bytes_fit : (d : Device) (lba i : ℕ) → (drive_of d).sectors lba i < 256
  pub status_keeps : (d : Device) → drive_of (ports.inb (io + 7) d).1 ≡ drive_of d
  pub status_polls : (d : Device) → polls (ports.inb (io + 7) d).1 ≡ polls d - 1
  pub busy_shown :
      (d : Device)
      → 0 < polls d
      → (bit_and (ports.inb (io + 7) d).0 0x80 ≡ 0x80) × (bit_and (ports.inb (io + 7) d).0 0x08 ≡ 0)
  pub ready_shown : (d : Device) → polls d ≡ 0 → bit_and (ports.inb (io + 7) d).0 0x80 ≡ 0
  pub request_shown :
      (d : Device)
      → polls d ≡ 0
      → is_idle (drive_of d).phase ≡ false
      → bit_and (ports.inb (io + 7) d).0 0x08 ≡ 0x08
  pub head_set :
      (v : ℕ) (d : Device)
      → polls d ≡ 0
      → (drive_of (ports.outb (io + 6) v d) ≡ record (drive_of d) { head = v })
        × (polls (ports.outb (io + 6) v d) ≡ 0)
  pub count_set :
      (v : ℕ) (d : Device)
      → polls d ≡ 0
      → (drive_of (ports.outb (io + 2) v d) ≡ record (drive_of d) { count = v })
        × (polls (ports.outb (io + 2) v d) ≡ 0)
  pub lo_set :
      (v : ℕ) (d : Device)
      → polls d ≡ 0
      → (drive_of (ports.outb (io + 3) v d) ≡ record (drive_of d) { lo = v })
        × (polls (ports.outb (io + 3) v d) ≡ 0)
  pub mid_set :
      (v : ℕ) (d : Device)
      → polls d ≡ 0
      → (drive_of (ports.outb (io + 4) v d) ≡ record (drive_of d) { mid = v })
        × (polls (ports.outb (io + 4) v d) ≡ 0)
  pub hi_set :
      (v : ℕ) (d : Device)
      → polls d ≡ 0
      → (drive_of (ports.outb (io + 5) v d) ≡ record (drive_of d) { hi = v })
        × (polls (ports.outb (io + 5) v d) ≡ 0)
  pub read_starts :
      (lba : ℕ) (d : Device)
      → lba < capacity
      → polls d ≡ 0
      → (drive_of d).phase ≡ idle
      → Addresses drive lba (drive_of d)
      → drive_of (ports.outb (io + 7) 0x20 d) ≡ record (drive_of d) { phase = reading lba 0 }
  pub write_starts :
      (lba : ℕ) (d : Device)
      → lba < capacity
      → polls d ≡ 0
      → (drive_of d).phase ≡ idle
      → Addresses drive lba (drive_of d)
      → drive_of (ports.outb (io + 7) 0x30 d) ≡ record (drive_of d) { phase = writing lba 0 }
  pub word_read :
      (lba k : ℕ) (d : Device)
      → polls d ≡ 0
      → (drive_of d).phase ≡ reading lba k
      → ((ports.inw io d).0 ≡ word ((drive_of d).sectors lba) k)
        × (drive_of (ports.inw io d).1 ≡ record (drive_of d) { phase = read_on lba k })
        × (polls (ports.inw io d).1 ≡ 0)
  pub word_written :
      (lba k w : ℕ) (d : Device)
      → polls d ≡ 0
      → (drive_of d).phase ≡ writing lba k
      → w < 65536
      → drive_of (ports.outw io w d) ≡ record (drive_of d) {
        phase = write_on lba k;
        sectors = put_word lba k w (drive_of d).sectors;
      }
  -- Between the words of a sector the drive does not become busy.
  pub word_settles :
      (lba k w : ℕ) (d : Device)
      → polls d ≡ 0
      → (drive_of d).phase ≡ writing lba k
      → k < 255
      → polls (ports.outw io w d) ≡ 0
