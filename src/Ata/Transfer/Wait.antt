-- ===== src/Ata/Transfer/Wait.antt =====
-- The loops of kernel/ata.c and their counterparts in kernel/filesystem.c, on a drive that keeps the law
-- of `Disk`.
use szym_os_kernel.Prelude.{
  ℕ, zero, suc, ◌+◌, ◌*◌, ◌/◌, ◌<◌, ◌≡◌, refl, sym, ap, ◌∙◌, inl, inr, Bool, false, not, arith, ℤ,
  pos, Bool-cases, if_true, u8, u16, shr, List,
}
use szym_os_kernel.Ports.{Ports}
use szym_os_kernel.Ata.Disk.{Disk, is_idle, Addresses}
use szym_os_kernel.Ata.State.{AtaDevice}
use szym_os_kernel.Ata.Wait.{
  poll_while, settled, is_busy, wants_data, ata_wait_bsy, ata_wait_drq, ata_400ns_delay,
}
use szym_os_kernel.Ata.Transfer.{address_sector, read_data, write_data}
use szym_os_kernel.Filesystem.Sector.{wait_while, read_words, write_words}
use szym_os_kernel.Filesystem.Sector.Wait.{wait_busy, wait_request, port_fits, head_fields}

module _ {Device : Type 0} (ports : Ports Device) where
  -- A wait of the file system that ends before its time ends there for the driver, too.
  poll_while-wait_while :
      (wanted : ℕ → Bool) (port t n : ℕ) (d d' : Device)
      → wait_while ports wanted port t d ≡ (pos (suc n), d')
      → poll_while ports wanted port t d ≡ (suc n, d')
  unfolding wait_while poll_while
  poll_while-wait_while wanted port zero n d d' h = ground (arith, h)
  poll_while-wait_while wanted port (suc t) n d d' h =
      let d1 = (ports.inb port d).1 in
      elim (Bool-cases (wanted (ports.inb port d).0)) [
        | inl e ↦
            if_true _ _ e ∙ poll_while-wait_while wanted port t n d1 d' (sym (if_true _ _ e) ∙ h)
        | inr e ↦ ground (arith, h, e)
      ]

  -- The loops over the words are the same.
  pub read_data-read_words :
      (n io : ℕ) (d : Device) → u16 io ≡ io → read_data ports n io d ≡ read_words ports n io d
  unfolding read_data read_words
  read_data-read_words zero io d h = refl
  read_data-read_words (suc n) io d h = rw (h, read_data-read_words n io (ports.inw io d).1 h)

  pub write_data-write_words :
      (n i io : ℕ) (buffer : List ℕ) (d : Device)
      → u16 io ≡ io
      → write_data ports n i io buffer d ≡ write_words ports n i io buffer d
  unfolding write_data write_words
  write_data-write_words zero i io buffer d h = refl
  write_data-write_words (suc n) i io buffer d h =
      rw (h) (write_data-write_words n (i + 1) io buffer _ h)

settled-suc : (n : ℕ) → settled (suc n) ≡ pos 0
settled-suc n = ground arith

module _ {Device : Type 0} (ports : Ports Device) (io drive : ℕ) (disk : Disk ports io drive) where
  open disk use {
    drive_of, polls, io_fits, drive_fits, status_keeps, status_polls, head_set, count_set, lo_set,
    mid_set, hi_set,
  }

  -- What a wait owes: it ends in time, the drive is as it was and no longer busy.
  pub record Waits (o : ℤ × Device) (d : Device) : Type 0 where
    pub device : Device
    pub ends : o ≡ (pos 0, device)
    pub keeps : drive_of device ≡ drive_of d
    pub quiet : polls device ≡ 0

  pub ata_wait_bsy-Waits : (d : Device) → Waits (ata_wait_bsy ports io d) d
  unfolding ata_wait_bsy
  ata_wait_bsy-Waits d =
      let (n, d', waits, keeps, quiet) = wait_busy ports io drive disk d in
      let polled = poll_while-wait_while ports is_busy (io + 7) 100000 n d d' waits in
      record {
        device = d';
        ends =
            ap (λ (p : ℕ × Device). (settled p.0, p.1))
              (ap (λ port. poll_while ports is_busy port 100000 d)
                  (port_fits ports io drive disk 7 (omega arith))
                ∙ polled)
            ∙ ap (λ z. (z, d')) (settled-suc n);
        keeps = keeps;
        quiet = quiet;
      }

  pub ata_wait_drq-Waits :
      (d : Device) → is_idle (drive_of d).phase ≡ false → Waits (ata_wait_drq ports io d) d
  unfolding ata_wait_drq
  ata_wait_drq-Waits d started =
      let (n, d', waits, keeps, quiet) = wait_request ports io drive disk d started in
      let polled =
        poll_while-wait_while ports (λ status. not (wants_data status)) (io + 7) 100000 n d d'
          waits in
      record {
        device = d';
        ends =
            ap (λ (p : ℕ × Device). (settled p.0, p.1))
              (ap (λ port. poll_while ports (λ status. not (wants_data status)) port 100000 d)
                  (port_fits ports io drive disk 7 (omega arith))
                ∙ polled)
            ∙ ap (λ z. (z, d')) (settled-suc n);
        keeps = keeps;
        quiet = quiet;
      }

  -- Four reads of the status of a drive that is not busy.
  ata_400ns_delay-keeps :
      (d : Device)
      → polls d ≡ 0
      → (drive_of (ata_400ns_delay ports io d) ≡ drive_of d)
        × (polls (ata_400ns_delay ports io d) ≡ 0)
  unfolding ata_400ns_delay
  ata_400ns_delay-keeps d h =
      let d1 = (ports.inb (io + 7) d).1 in
      let d2 = (ports.inb (io + 7) d1).1 in
      let d3 = (ports.inb (io + 7) d2).1 in
      let reads : ata_400ns_delay ports io d ≡ (ports.inb (io + 7) d3).1 =
        ap (λ port. (ports.inb port (ports.inb port (ports.inb port (ports.inb port d).1).1).1).1)
          (port_fits ports io drive disk 7 (omega arith)) in
      rw reads (
        status_keeps d3 ∙ (status_keeps d2 ∙ (status_keeps d1 ∙ status_keeps d)),
        omega (arith, h, status_polls d, status_polls d1, status_polls d2, status_polls d3),
      )

  -- What addressing a sector owes: the device in front of the command.
  pub record Addressed (command lba : ℕ) (o d : Device) : Type 0 where
    pub device : Device
    pub sends : o ≡ ports.outb (io + 7) command device
    pub addresses : Addresses drive lba (drive_of device)
    pub phase : (drive_of device).phase ≡ (drive_of d).phase
    pub sectors : (drive_of device).sectors ≡ (drive_of d).sectors
    pub quiet : polls device ≡ 0

  pub address_sector-Addressed :
      (dev : AtaDevice) (command lba : ℕ) (d : Device)
      → dev.io_base ≡ io
      → dev.drive ≡ drive
      → lba < 268435456
      → polls d ≡ 0
      → Addressed command lba (address_sector ports dev lba command d) d
  unfolding address_sector
  address_sector-Addressed dev command lba d base number h quiet =
      let head = 224 + 16 * drive + lba / 16777216 in
      let (v1, q1) = head_set head d quiet in
      let d1 = ports.outb (io + 6) head d in
      let (keeps, q1') = ata_400ns_delay-keeps d1 q1 in
      let d1' = ata_400ns_delay ports io d1 in
      let (v2, q2) = count_set 1 d1' q1' in
      let d2 = ports.outb (io + 2) 1 d1' in
      let (v3, q3) = lo_set (u8 lba) d2 q2 in
      let d3 = ports.outb (io + 3) (u8 lba) d2 in
      let (v4, q4) = mid_set (u8 (shr lba 8)) d3 q3 in
      let d4 = ports.outb (io + 4) (u8 (shr lba 8)) d3 in
      let (v5, q5) = hi_set (u8 (shr lba 16)) d4 q4 in
      let d5 = ports.outb (io + 5) (u8 (shr lba 16)) d4 in
      record {
        device = d5;
        sends = cc (
          base,
          number,
          head_fields drive lba drive_fits h,
          port_fits ports io drive disk 2 (omega arith),
          port_fits ports io drive disk 3 (omega arith),
          port_fits ports io drive disk 4 (omega arith),
          port_fits ports io drive disk 5 (omega arith),
          port_fits ports io drive disk 6 (omega arith),
          port_fits ports io drive disk 7 (omega arith),
        );
        addresses = rw (v5, v4, v3, v2, keeps, v1) (refl, refl, refl, refl, refl);
        phase = rw (v5, v4, v3, v2, keeps, v1);
        sectors = rw (v5, v4, v3, v2, keeps, v1);
        quiet = q5;
      }
