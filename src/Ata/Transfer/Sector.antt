-- ===== src/Ata/Transfer/Sector.antt =====
-- One sector by `ata_read_sector` and `ata_write_sector` of kernel/ata.c, on a drive that keeps the law of
-- `Disk`.
use szym_os_kernel.Prelude.{
  ℕ, ◌+◌, ◌<◌, ◌≡◌, refl, ap, ◌∙◌, false, ◌&&◌, ◌||◌, arith, List, [], ◌∷◌, some, pos, ◌==◌, ltb,
  if◌then◌else◌, bind_some, if_false, get_or, get_elem?,
}
use szym_os_kernel.Prelude.Bytes.{slice}
use szym_os_kernel.Ports.{Ports}
use szym_os_kernel.Console.{Call, int, uint, format}
use szym_os_kernel.System.{System, say, with_dev}
use szym_os_kernel.Ata.Disk.{Disk, idle, is_idle}
use szym_os_kernel.Ata.State.{AtaDevice}
use szym_os_kernel.Ata.Drives.{out_of_range, drive_at}
use szym_os_kernel.Ata.Wait.{cmd_read_pio, cmd_write_pio}
use szym_os_kernel.Ata.Transfer.{read_from, write_to, ata_read_sector, ata_write_sector}
use szym_os_kernel.Ata.Transfer.Wait.{
  read_data-read_words, write_data-write_words, ata_wait_bsy-Waits, ata_wait_drq-Waits,
  address_sector-Addressed,
}
use szym_os_kernel.Filesystem.Sector.Words.{read_words-reads, write_words-writes}

-- What `ata_write_sector` says of a transfer.
abbrev pub writing_line : {Device : Type 0} → ℕ → AtaDevice → System Device → Call
writing_line lba dev s =
    format "[DEBUG] Writing to drive %d, LBA %d, IO base 0x%x\n"
      (int s.ata.selected_drive ∷ uint lba ∷ uint dev.io_base ∷ [])

module _ {Device : Type 0} {ports : Ports Device} {io drive : ℕ} (disk : Disk ports io drive) where
  open disk use {drive_of, polls, io_fits, capacity, capacity_fits, read_starts, write_starts}

  -- The driver has selected an entry of its table that is of the drive, and no command is under way.
  pub record Selected (k n : ℕ) (dev : AtaDevice) (s : System Device) : Type 0 where
    pub selected : s.ata.selected_drive ≡ pos k
    pub count : s.ata.drive_count ≡ pos n
    pub low : k < n
    pub entry : get_elem? s.ata.drives k ≡ some dev
    pub present : (dev.present == 0) ≡ false
    pub base : dev.io_base ≡ io
    pub channel : (io == 0) ≡ false
    pub number : dev.drive ≡ drive
    pub at_rest : (drive_of s.dev).phase ≡ idle

  read_from-sector :
      (k n lba : ℕ) (dev : AtaDevice) (s : System Device)
      → lba < capacity
      → Selected k n dev s
      → (d' : Device) × (read_from ports dev lba s
          ≡ (pos 0, slice ((drive_of s.dev).sectors lba) 0 512, with_dev d' s))
        × ((drive_of d').phase ≡ idle)
        × ((drive_of d').sectors ≡ (drive_of s.dev).sectors)
  unfolding read_from
  read_from-sector k n lba dev s h m =
      let w1 = ata_wait_bsy-Waits ports io drive disk s.dev in
      let a =
        address_sector-Addressed ports io drive disk dev cmd_read_pio lba w1.device m.base m.number
          (omega (arith, h, capacity_fits)) w1.quiet in
      let started =
        read_starts lba a.device h a.quiet (a.phase ∙ ap (λ v. v.phase) w1.keeps ∙ m.at_rest)
          a.addresses in
      let d3 = ports.outb (io + 7) cmd_read_pio a.device in
      let w2 = ata_wait_drq-Waits ports io drive disk d3 (ap (λ v. is_idle v.phase) started) in
      let (d5, reads, ends, same5, _) =
        read_words-reads ports io drive disk 256 lba 0 w2.device refl w2.quiet
          (ap (λ v. v.phase) (w2.keeps ∙ started)) in
      let same_words = read_data-read_words ports 256 io w2.device (omega (arith, io_fits)) in
      (
        d5,
        ground (arith, m.base, w1.ends, a.sends, w2.ends, same_words, reads),
        ends,
        same5 ∙ ap (λ v. v.sectors) (w2.keeps ∙ started) ∙ a.sectors ∙ ap (λ v. v.sectors) w1.keeps,
      )

  write_to-sector :
      (k n lba : ℕ) (buffer : List ℕ) (dev : AtaDevice) (s : System Device)
      → lba < capacity
      → ((j : ℕ) → get_or buffer j 0 < 256)
      → Selected k n dev s
      → (d' : Device) × (write_to ports dev lba buffer s ≡ (pos 0, with_dev d' s))
        × ((drive_of d').phase ≡ idle)
        × ((l j : ℕ)
            → (drive_of d').sectors l j
              ≡ (if l == lba && ltb j 512 then get_or buffer j 0 else (drive_of s.dev).sectors l j))
  unfolding write_to
  write_to-sector k n lba buffer dev s h fits m =
      let w1 = ata_wait_bsy-Waits ports io drive disk s.dev in
      let a =
        address_sector-Addressed ports io drive disk dev cmd_write_pio lba w1.device m.base m.number
          (omega (arith, h, capacity_fits)) w1.quiet in
      let started =
        write_starts lba a.device h a.quiet (a.phase ∙ ap (λ v. v.phase) w1.keeps ∙ m.at_rest)
          a.addresses in
      let d3 = ports.outb (io + 7) cmd_write_pio a.device in
      let w2 = ata_wait_drq-Waits ports io drive disk d3 (ap (λ v. is_idle v.phase) started) in
      let before : (drive_of w2.device).sectors ≡ (drive_of s.dev).sectors =
        ap (λ v. v.sectors) (w2.keeps ∙ started) ∙ a.sectors ∙ ap (λ v. v.sectors) w1.keeps in
      let (d5, writes, ends, written) =
        write_words-writes ports io drive disk 256 lba 0 buffer w2.device fits refl (λ _. w2.quiet)
          (ap (λ v. v.phase) (w2.keeps ∙ started)) in
      let same_words =
        write_data-write_words ports 256 0 io buffer w2.device (omega (arith, io_fits)) in
      let w3 = ata_wait_bsy-Waits ports io drive disk d5 in
      (
        w3.device,
        ground (arith, m.base, w1.ends, a.sends, w2.ends, same_words, writes, w3.ends),
        ap (λ v. v.phase) w3.keeps ∙ ends,
        λ l j. ap (λ v. v.sectors l j) w3.keeps ∙ written l j ∙ rw before (ground arith),
      )

  -- The checks in front of a transfer find the entry.
  in_range :
      (k n : ℕ) (dev : AtaDevice) (s : System Device)
      → Selected k n dev s
      → out_of_range s.ata.selected_drive s.ata.drive_count ≡ false
  in_range k n dev s m = ground (arith, m.selected, m.count, m.low)

  at_entry :
      (k n : ℕ) (dev : AtaDevice) (s : System Device)
      → Selected k n dev s
      → drive_at s.ata.drives s.ata.selected_drive ≡ some dev
  at_entry k n dev s m = ap (drive_at s.ata.drives) m.selected ∙ m.entry

  sound :
      (k n : ℕ) (dev : AtaDevice) (s : System Device)
      → Selected k n dev s
      → (dev.present == 0 || dev.io_base == 0) ≡ false
  sound k n dev s m = rw (m.present, m.base, m.channel) refl

  -- `ata_read_sector` of the selected drive returns 0 with the 512 bytes of the sector, changes none, and
  -- leaves the drive at rest.
  pub ata_read_sector-sector :
      (k n lba : ℕ) (dev : AtaDevice) (s : System Device)
      → lba < capacity
      → Selected k n dev s
      → (d' : Device) × (ata_read_sector ports lba s
          ≡ some (pos 0, slice ((drive_of s.dev).sectors lba) 0 512, with_dev d' s))
        × ((drive_of d').phase ≡ idle)
        × ((drive_of d').sectors ≡ (drive_of s.dev).sectors)
  unfolding ata_read_sector
  ata_read_sector-sector k n lba dev s h m =
      let (d', reads, ends, same) = read_from-sector k n lba dev s h m in
      (
        d',
        if_false _ _ (in_range k n dev s m)
            ∙ (bind_some _ (at_entry k n dev s m)
                ∙ (if_false _ _ (sound k n dev s m) ∙ ap some reads)),
        ends,
        same,
      )

  -- `ata_write_sector` of a buffer of bytes returns 0, puts the first 512 bytes of the buffer into the
  -- sector, changes no other, and leaves the drive at rest.
  pub ata_write_sector-sector :
      (k n lba : ℕ) (buffer : List ℕ) (dev : AtaDevice) (s : System Device)
      → lba < capacity
      → ((j : ℕ) → get_or buffer j 0 < 256)
      → Selected k n dev s
      → (d' : Device) × (ata_write_sector ports lba buffer s
          ≡ some (pos 0, with_dev d' (say (writing_line lba dev s ∷ []) s)))
        × ((drive_of d').phase ≡ idle)
        × ((l j : ℕ)
            → (drive_of d').sectors l j
              ≡ (if l == lba && ltb j 512 then get_or buffer j 0 else (drive_of s.dev).sectors l j))
  unfolding ata_write_sector
  ata_write_sector-sector k n lba buffer dev s h fits m =
      let s1 = say (writing_line lba dev s ∷ []) s in
      let m1 : Selected k n dev s1 = record {
        selected = m.selected;
        count = m.count;
        low = m.low;
        entry = m.entry;
        present = m.present;
        base = m.base;
        channel = m.channel;
        number = m.number;
        at_rest = m.at_rest;
      } in
      let (d', writes, ends, written) = write_to-sector k n lba buffer dev s1 h fits m1 in
      (
        d',
        if_false _ _ (in_range k n dev s m)
            ∙ (bind_some _ (at_entry k n dev s m)
                ∙ (if_false _ _ (sound k n dev s m) ∙ ap some writes)),
        ends,
        written,
      )
