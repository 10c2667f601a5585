-- ===== src/Filesystem/Sector/Transfer.antt =====
-- One sector of the file system's drive, on a drive that keeps the law of `Disk`.
use szym_os_kernel.Prelude.{
  ℕ, ◌+◌, ◌<◌, ◌≡◌, refl, ap, ◌∙◌, true, ◌&&◌, arith, List, pos, ◌==◌, ltb, if◌then◌else◌, get_or,
}
use szym_os_kernel.Prelude.Bytes.{slice}
use szym_os_kernel.Ports.{Ports}
use szym_os_kernel.System.{System, with_dev}
use szym_os_kernel.Ata.Disk.{Disk, idle, is_idle}
use szym_os_kernel.Filesystem.Sector.{fs_read_sector_direct, fs_write_sector_direct}
use szym_os_kernel.Filesystem.Sector.Wait.{
  wait_busy, wait_request, send_command-Addresses, port_fits,
}
use szym_os_kernel.Filesystem.Sector.Words.{read_words-reads, write_words-writes}

module _ {Device : Type 0} {ports : Ports Device} {io drive : ℕ} (disk : Disk ports io drive) where
  open disk use {drive_of, polls, capacity, capacity_fits, read_starts, write_starts}

  -- The file system has been given the drive, and no command is under way there.
  pub record Mounted (s : System Device) : Type 0 where
    pub selected : s.fs.drive_selected ≡ true
    pub base : s.fs.drive_io_base ≡ io
    pub number : s.fs.drive_num ≡ drive
    pub at_rest : (drive_of s.dev).phase ≡ idle

  -- `fs_read_sector_direct` returns 0 with the 512 bytes of the sector, and changes none.
  pub fs_read_sector_direct-sector :
      (lba : ℕ) (s : System Device)
      → lba < capacity
      → Mounted s
      → (d' : Device) × (fs_read_sector_direct ports lba s
          ≡ (pos 0, slice ((drive_of s.dev).sectors lba) 0 512, with_dev d' s))
        × ((drive_of d').phase ≡ idle)
        × ((drive_of d').sectors ≡ (drive_of s.dev).sectors)
  unfolding fs_read_sector_direct
  fs_read_sector_direct-sector lba s h m =
      let (n, d1, waits, same1, quiet1) = wait_busy ports io drive disk s.dev in
      let (d2, sends, addresses, phase2, same2, quiet2) =
        send_command-Addresses ports io drive disk 0x20 lba d1 (omega (arith, h, capacity_fits))
          quiet1 in
      let started =
        read_starts lba d2 h quiet2 (phase2 ∙ ap (λ v. v.phase) same1 ∙ m.at_rest) addresses in
      let d3 = ports.outb (io + 7) 0x20 d2 in
      let (n', d4, asks, same4, quiet4) =
        wait_request ports io drive disk d3 (ap (λ v. is_idle v.phase) started) in
      let (d5, reads, ends, same5, _) =
        read_words-reads ports io drive disk 256 lba 0 d4 refl quiet4
          (ap (λ v. v.phase) (same4 ∙ started)) in
      (
        d5,
        ground (
          arith,
          port_fits ports io drive disk 7,
          m.selected,
          m.base,
          m.number,
          waits,
          sends,
          asks,
          reads,
        ),
        ends,
        same5 ∙ ap (λ v. v.sectors) (same4 ∙ started) ∙ same2 ∙ ap (λ v. v.sectors) same1,
      )

  -- `fs_write_sector_direct` of a buffer of bytes returns 0, says nothing, puts the first 512 bytes of
  -- the buffer into the sector, and changes no other.
  pub fs_write_sector_direct-sector :
      (lba : ℕ) (buffer : List ℕ) (s : System Device)
      → lba < capacity
      → ((j : ℕ) → get_or buffer j 0 < 256)
      → Mounted s
      → (d' : Device) × (fs_write_sector_direct ports lba buffer s ≡ (pos 0, with_dev d' s))
        × ((drive_of d').phase ≡ idle)
        × ((l j : ℕ)
            → (drive_of d').sectors l j
              ≡ (if l == lba && ltb j 512 then get_or buffer j 0 else (drive_of s.dev).sectors l j))
  unfolding fs_write_sector_direct
  fs_write_sector_direct-sector lba buffer s h fits m =
      let (n, d1, waits, same1, quiet1) = wait_busy ports io drive disk s.dev in
      let (d2, sends, addresses, phase2, same2, quiet2) =
        send_command-Addresses ports io drive disk 0x30 lba d1 (omega (arith, h, capacity_fits))
          quiet1 in
      let started =
        write_starts lba d2 h quiet2 (phase2 ∙ ap (λ v. v.phase) same1 ∙ m.at_rest) addresses in
      let d3 = ports.outb (io + 7) 0x30 d2 in
      let (n', d4, asks, same4, quiet4) =
        wait_request ports io drive disk d3 (ap (λ v. is_idle v.phase) started) in
      let before : (drive_of d4).sectors ≡ (drive_of s.dev).sectors =
        ap (λ v. v.sectors) (same4 ∙ started) ∙ same2 ∙ ap (λ v. v.sectors) same1 in
      let (d5, writes, ends, written) =
        write_words-writes ports io drive disk 256 lba 0 buffer d4 fits refl (λ _. quiet4)
          (ap (λ v. v.phase) (same4 ∙ started)) in
      let (n'', d6, rests, same6, _) = wait_busy ports io drive disk d5 in
      (
        d6,
        ground (
          arith,
          port_fits ports io drive disk 7,
          m.selected,
          m.base,
          m.number,
          waits,
          sends,
          asks,
          writes,
          rests,
        ),
        ap (λ v. v.phase) same6 ∙ ends,
        λ l j. ap (λ v. v.sectors l j) same6 ∙ written l j ∙ rw before (ground arith),
      )
