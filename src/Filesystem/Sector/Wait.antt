-- ===== src/Filesystem/Sector/Wait.antt =====
-- Waiting for the drive and addressing a sector, on a drive that keeps the law of `Disk`.
use szym_os_kernel.Prelude.{
  ℕ, zero, suc, ◌+◌, ◌*◌, ◌/◌, ◌<◌, ◌≡◌, refl, ap, ◌∙◌, inl, inr, Bool, true, false, not, arith,
  pos, ◌==◌, ==_iff, Bool-cases, u8, u16, shr, shl, bit_and, bit_or, all_below, all_below_sound,
}
use szym_os_kernel.Ports.{Ports}
use szym_os_kernel.Ata.Disk.{Disk, is_idle, Addresses}
use szym_os_kernel.Filesystem.Sector.{busy, data_request, timeout_limit, wait_while, send_command}

head_table :
    all_below 2 (λ drive.
      all_below 16 (λ top.
        u8 (bit_or (bit_or 0xE0 (drive * 16)) (bit_and top 0x0F)) == 224 + 16 * drive + top))
    ≡ true
unfolding all_below
head_table = refl

-- The byte for the drive register: LBA mode, the drive's number, and bits 24 to 27 of the sector's.
pub head_fields :
    (drive lba : ℕ)
    → drive < 2
    → lba < 268435456
    → u8 (bit_or (bit_or 0xE0 (shl drive 4)) (bit_and (shr lba 24) 0x0F))
      ≡ 224 + 16 * drive + lba / 16777216
head_fields drive lba h k =
    let top : lba / 16777216 < 16 = omega arith in
    let row =
      all_below_sound 2
        (λ drive. all_below 16 (λ top.
          u8 (bit_or (bit_or 0xE0 (drive * 16)) (bit_and top 0x0F)) == 224 + 16 * drive + top))
        drive head_table h in
    (==_iff _ _).0 (
      all_below_sound 16
        (λ top. u8 (bit_or (bit_or 0xE0 (drive * 16)) (bit_and top 0x0F)) == 224 + 16 * drive + top)
        (lba / 16777216) row top)

module _ {Device : Type 0} (ports : Ports Device) (io drive : ℕ) (disk : Disk ports io drive) where
  open disk use {
    drive_of, polls, io_fits, drive_fits, prompt, status_keeps, status_polls, busy_shown,
    ready_shown, request_shown, head_set, count_set, lo_set, mid_set, hi_set,
  }

  -- A loop that goes on while the drive is busy and ends when it is not, ends before its time.
  pub wait_while-settles :
      (wanted : ℕ → Bool) (t : ℕ) (d : Device)
      → polls d < t
      → ((x : Device) → 0 < polls x → wanted (ports.inb (io + 7) x).0 ≡ true)
      → ((x : Device)
          → polls x ≡ 0
          → drive_of x ≡ drive_of d
          → wanted (ports.inb (io + 7) x).0 ≡ false)
      → (n : ℕ) × (d' : Device) × (wait_while ports wanted (io + 7) t d ≡ (pos (suc n), d'))
        × (drive_of d' ≡ drive_of d)
        × (polls d' ≡ 0)
  unfolding wait_while
  wait_while-settles wanted zero d h go stop = absurd (omega arith)
  wait_while-settles wanted (suc t) d h go stop = elim (Bool-cases (polls d == 0)) [
    | inl e ↦
        let none_left : polls d ≡ 0 = (==_iff _ _).0 e in
        (
          t,
          (ports.inb (io + 7) d).1,
          rw (stop d none_left refl),
          status_keeps d,
          omega (arith, status_polls d),
        )
    | inr e ↦
        let left : 0 < polls d = ground arith in
        let d1 = (ports.inb (io + 7) d).1 in
        let (n, d', ends, keeps, quiet) =
          wait_while-settles wanted t d1 (omega (arith, status_polls d)) go
            (λ x p q. stop x p (q ∙ status_keeps d)) in
        (n, d', rw (go d left) ends, keeps ∙ status_keeps d, quiet)
  ]

  -- The wait for the busy bit to clear.
  pub wait_busy :
      (d : Device)
      → (n : ℕ) × (d' : Device) × (wait_while ports busy (io + 7) timeout_limit d
          ≡ (pos (suc n), d'))
        × (drive_of d' ≡ drive_of d)
        × (polls d' ≡ 0)
  wait_busy d =
      wait_while-settles busy timeout_limit d (prompt d) (λ x p. rw (busy_shown x p).0)
        (λ x p _. rw (ready_shown x p))

  -- The wait for the data request of a command that has started.
  pub wait_request :
      (d : Device)
      → is_idle (drive_of d).phase ≡ false
      → (n : ℕ) × (d' : Device) × (wait_while ports
            (λ st. not (data_request st))
            (io + 7)
            timeout_limit
            d
          ≡ (pos (suc n), d'))
        × (drive_of d' ≡ drive_of d)
        × (polls d' ≡ 0)
  wait_request d started =
      wait_while-settles (λ st. not (data_request st)) timeout_limit d (prompt d)
        (λ x p. rw (busy_shown x p).1)
        (λ x p same. rw (request_shown x p (ap (λ v. is_idle v.phase) same ∙ started)))

  pub port_fits : (k : ℕ) → k < 8 → u16 (io + k) ≡ io + k
  port_fits k h = omega (arith, io_fits)

  -- The writes in front of the command address the sector, and leave the rest as it is.
  pub send_command-Addresses :
      (command lba : ℕ) (d : Device)
      → lba < 268435456
      → polls d ≡ 0
      → (d' : Device) × (send_command ports io drive lba command d ≡ ports.outb (io + 7) command d')
        × Addresses drive lba (drive_of d')
        × ((drive_of d').phase ≡ (drive_of d).phase)
        × ((drive_of d').sectors ≡ (drive_of d).sectors)
        × (polls d' ≡ 0)
  unfolding send_command
  send_command-Addresses command lba d h quiet =
      let sent : send_command ports io drive lba command d
          ≡ ports.outb (io + 7) command (
              ports.outb (io + 5) (u8 (shr lba 16)) (
                ports.outb (io + 4) (u8 (shr lba 8)) (
                  ports.outb (io + 3) (u8 lba) (
                    ports.outb (io + 2) 1
                      (ports.outb (io + 6) (224 + 16 * drive + lba / 16777216) d))))) =
        cc (
          head_fields drive lba drive_fits h,
          port_fits 2 (omega arith),
          port_fits 3 (omega arith),
          port_fits 4 (omega arith),
          port_fits 5 (omega arith),
          port_fits 6 (omega arith),
          port_fits 7 (omega arith),
        ) in
      let (v1, q1) = head_set (224 + 16 * drive + lba / 16777216) d quiet in
      let d1 = ports.outb (io + 6) (224 + 16 * drive + lba / 16777216) d in
      let (v2, q2) = count_set 1 d1 q1 in
      let d2 = ports.outb (io + 2) 1 d1 in
      let (v3, q3) = lo_set (u8 lba) d2 q2 in
      let d3 = ports.outb (io + 3) (u8 lba) d2 in
      let (v4, q4) = mid_set (u8 (shr lba 8)) d3 q3 in
      let d4 = ports.outb (io + 4) (u8 (shr lba 8)) d3 in
      let (v5, q5) = hi_set (u8 (shr lba 16)) d4 q4 in
      let d5 = ports.outb (io + 5) (u8 (shr lba 16)) d4 in
      (
        d5,
        sent,
        rw (v5, v4, v3, v2, v1) (refl, refl, refl, refl, refl),
        rw (v5, v4, v3, v2, v1),
        rw (v5, v4, v3, v2, v1),
        q5,
      )
