-- ===== src/Filesystem/Sector/Words.antt =====
-- The loops over the 256 words of a sector, on a drive that keeps the law of `Disk`.
use szym_os_kernel.Prelude.{
  ℕ, zero, suc, ◌+◌, ◌*◌, ◌/◌, ◌%◌, ◌<◌, ◌≡◌, refl, ap, ◌∙◌, ◌&&◌, arith, List, ◌∷◌, ◌==◌, leb, ltb,
  if◌then◌else◌, get_or,
}
use szym_os_kernel.Prelude.Bytes.{Memory, slice}
use szym_os_kernel.Ports.{Ports}
use szym_os_kernel.Ata.Disk.{Disk, Phase, idle, reading, writing, read_on, write_on, word, put_word}
use szym_os_kernel.Filesystem.Sector.{read_words, write_words, word_at}

-- The phase with `n` words left, the word `k` being next.
abbrev pub left_to_read : ℕ → ℕ → ℕ → Phase
left_to_read zero lba k = idle
left_to_read (suc n) lba k = reading lba k

abbrev pub left_to_write : ℕ → ℕ → ℕ → Phase
left_to_write zero lba k = idle
left_to_write (suc n) lba k = writing lba k

read_on-left : (n lba k : ℕ) → suc n + k ≡ 256 → read_on lba k ≡ left_to_read n lba (k + 1)
read_on-left zero lba k h = ground arith
read_on-left (suc n) lba k h = ground arith

write_on-left : (n lba k : ℕ) → suc n + k ≡ 256 → write_on lba k ≡ left_to_write n lba (k + 1)
write_on-left zero lba k h = ground arith
write_on-left (suc n) lba k h = ground arith

-- Two bytes more.
slice-word :
    (m : Memory) (k n w : ℕ)
    → w ≡ word m k
    → m (2 * k) < 256
    → m (2 * k + 1) < 256
    → w % 256 ∷ w / 256 ∷ slice m (2 * (k + 1)) (2 * n) ≡ slice m (2 * k) (2 * suc n)
unfolding slice
slice-word m k n w e p q =
    let bytes : (w % 256 ≡ m (2 * k)) × (w / 256 ≡ m (2 * k + 1)) = omega arith in
    let size : 2 * suc n ≡ suc (suc (2 * n)) = omega arith in
    let next : 2 * (k + 1) ≡ 2 * k + 1 + 1 = omega arith in rw (size, next, bytes.0, bytes.1)

module _ {Device : Type 0} (ports : Ports Device) (io drive : ℕ) (disk : Disk ports io drive) where
  open disk use {drive_of, polls, bytes_fit, word_read, word_written, word_settles}

  pub read_words-reads :
      (n lba k : ℕ) (d : Device)
      → n + k ≡ 256
      → polls d ≡ 0
      → (drive_of d).phase ≡ left_to_read n lba k
      → (d' : Device) × (read_words ports n io d
          ≡ (slice ((drive_of d).sectors lba) (2 * k) (2 * n), d'))
        × ((drive_of d').phase ≡ idle)
        × ((drive_of d').sectors ≡ (drive_of d).sectors)
        × (polls d' ≡ 0)
  unfolding read_words slice
  read_words-reads zero lba k d h quiet at = (d, refl, at, refl, quiet)
  read_words-reads (suc n) lba k d h quiet at =
      let (value, after, quiet1) = word_read lba k d quiet at in
      let d1 = (ports.inw io d).1 in
      let same : (drive_of d1).sectors ≡ (drive_of d).sectors = ap (λ v. v.sectors) after in
      let (d', reads, ends, kept, quiet') =
        read_words-reads n lba (k + 1) d1 (omega arith) quiet1
          (ap (λ v. v.phase) after ∙ read_on-left n lba k h) in
      (
        d',
        rw (reads, same)
            (ap (λ bytes. (bytes, d'))
              (slice-word ((drive_of d).sectors lba) k n (ports.inw io d).0 value
                (bytes_fit d lba (2 * k)) (bytes_fit d lba (2 * k + 1)))),
        ends,
        kept ∙ same,
        quiet',
      )

  -- The bytes that a sector has when the words from `k` on have been written.
  abbrev pub Written : ℕ → ℕ → List ℕ → Device → Device → Type 0
  Written lba k buffer d d' =
      (l j : ℕ)
      → (drive_of d').sectors l j ≡ (
          if l == lba && (leb (2 * k) j && ltb j 512)
          then get_or buffer j 0
          else (drive_of d).sectors l j)

  Written-word :
      (lba k : ℕ) (buffer : List ℕ) (d d1 d' : Device)
      → k < 256
      → (drive_of d1).sectors ≡ put_word lba k (word_at buffer k) (drive_of d).sectors
      → get_or buffer (2 * k) 0 < 256
      → get_or buffer (2 * k + 1) 0 < 256
      → Written lba (k + 1) buffer d1 d'
      → Written lba k buffer d d'
  unfolding put_word
  Written-word lba k buffer d d1 d' low now p q rest l j = rest l j ∙ rw now (ground arith)

  pub write_words-writes :
      (n lba k : ℕ) (buffer : List ℕ) (d : Device)
      → ((j : ℕ) → get_or buffer j 0 < 256)
      → n + k ≡ 256
      → (0 < n → polls d ≡ 0)
      → (drive_of d).phase ≡ left_to_write n lba k
      → (d' : Device) × (write_words ports n k io buffer d ≡ d')
        × ((drive_of d').phase ≡ idle)
        × Written lba k buffer d d'
  unfolding write_words
  write_words-writes zero lba k buffer d fits h quiet at = (d, refl, at, λ l j. ground arith)
  write_words-writes (suc n) lba k buffer d fits h quiet at =
      let w = word_at buffer k in
      let d1 = ports.outw io w d in
      let now : polls d ≡ 0 = quiet (omega arith) in
      let after = word_written lba k w d now at (omega (arith, fits (2 * k), fits (2 * k + 1))) in
      let (d', writes, ends, rest) =
        write_words-writes n lba (k + 1) buffer d1 fits (omega arith)
          (λ more. word_settles lba k w d now at (omega arith))
          (ap (λ v. v.phase) after ∙ write_on-left n lba k h) in
      (
        d',
        writes,
        ends,
        Written-word lba k buffer d d1 d' (omega arith) (ap (λ v. v.sectors) after) (fits (2 * k))
            (fits (2 * k + 1)) rest,
      )
