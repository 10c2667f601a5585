-- ===== src/Ata/Transfer/RoundTrip.antt =====
-- A sector that `ata_write_sector` of kernel/ata.c has written, and what reads it.
use szym_os_kernel.Prelude.{
  ℕ, zero, suc, ◌+◌, ◌<◌, ◌≡◌, refl, sym, ap, ◌∙◌, true, ◌&&◌, arith, List, [], ◌∷◌, some, ℤ, pos,
  ◌==◌, ltb, if◌then◌else◌, length, get_or, lt→ltb, Bool-cases, inl, inr, if_true, if_false,
}
use szym_os_kernel.Prelude.Bytes.{slice, slice_ext}
use szym_os_kernel.Ports.{Ports}
use szym_os_kernel.System.{System, say, with_dev}
use szym_os_kernel.Ata.Disk.{Disk}
use szym_os_kernel.Ata.State.{AtaDevice}
use szym_os_kernel.Ata.Transfer.{ata_read_sector, ata_write_sector}
use szym_os_kernel.Ata.Transfer.Sector.{
  Selected, writing_line, ata_read_sector-sector, ata_write_sector-sector,
}
use szym_os_kernel.Filesystem.Sector.{fs_read_sector_direct}
use szym_os_kernel.Filesystem.Sector.Transfer.{Mounted, fs_read_sector_direct-sector}

-- The bytes of a list, as they stand in memory.
slice-shift :
    (x : ℕ) (xs : List ℕ) (a n : ℕ)
    → slice (λ j. get_or (x ∷ xs) j 0) (a + 1) n ≡ slice (λ j. get_or xs j 0) a n
unfolding slice
slice-shift x xs a zero = refl
slice-shift x xs a (suc n) = ground (arith, slice-shift x xs (a + 1) n)

slice-get_or : (xs : List ℕ) → slice (λ j. get_or xs j 0) 0 (length xs) ≡ xs
unfolding slice
slice-get_or [] = refl
slice-get_or (x ∷ xs) = ap (λ t. x ∷ t) (slice-shift x xs 0 (length xs) ∙ slice-get_or xs)

-- The bytes of a sector, behind a write of 512 bytes to one.
sector_bytes :
    (before after : ℕ → ℕ → ℕ) (lba other : ℕ) (buffer : List ℕ)
    → length buffer ≡ 512
    → ((l j : ℕ) → after l j ≡ (if l == lba && ltb j 512 then get_or buffer j 0 else before l j))
    → slice (after other) 0 512 ≡ (if other == lba then buffer else slice (before other) 0 512)
sector_bytes before after lba other buffer size written = elim (Bool-cases (other == lba)) [
  | inl e ↦
      slice_ext (after other) (λ j. get_or buffer j 0) 0 512
        (λ i p q. let low : ltb i 512 ≡ true = lt→ltb _ _ q in written other i ∙ rw (e, low) refl)
      ∙ (ap (slice (λ j. get_or buffer j 0) 0) (sym size)
          ∙ (slice-get_or buffer ∙ sym (if_true _ _ e)))
  | inr e ↦
      slice_ext (after other) (before other) 0 512 (λ i p q. written other i ∙ rw e refl)
      ∙ sym (if_false _ _ e)
]

module _ {Device : Type 0} {ports : Ports Device} {io drive : ℕ} (disk : Disk ports io drive) where
  open disk use {drive_of}

  -- With a drive selected that behaves as documented, 512 bytes that are written to a sector
  -- below its capacity are read back, and any other such sector is read as it was.
  pub ata_read_sector-ata_write_sector :
      (k n lba other : ℕ) (buffer : List ℕ) (dev : AtaDevice) (s : System Device)
      → lba < Disk.capacity disk
      → other < Disk.capacity disk
      → length buffer ≡ 512
      → ((j : ℕ) → get_or buffer j 0 < 256)
      → Selected disk k n dev s
      → (s1 s2 : System Device) × (ata_write_sector ports lba buffer s ≡ some (pos 0, s1))
        × (ata_read_sector ports other s1
            ≡ some (
              pos 0,
              (if other == lba then buffer else slice ((drive_of s.dev).sectors other) 0 512),
              s2,
            ))
  ata_read_sector-ata_write_sector k n lba other buffer dev s h h' size fits m =
      let (d1, writes, ends, written) =
        ata_write_sector-sector disk k n lba buffer dev s h fits m in
      let s1 = with_dev d1 (say (writing_line lba dev s ∷ []) s) in
      let m1 : Selected disk k n dev s1 = record {
        selected = m.selected;
        count = m.count;
        low = m.low;
        entry = m.entry;
        present = m.present;
        base = m.base;
        channel = m.channel;
        number = m.number;
        at_rest = ends;
      } in
      let (d2, reads, _, _) = ata_read_sector-sector disk k n other dev s1 h' m1 in
      (
        s1,
        with_dev d2 s1,
        writes,
        reads
            ∙ ap (λ bytes. some (pos 0, bytes, with_dev d2 s1))
                (sector_bytes (drive_of s.dev).sectors (drive_of d1).sectors lba other buffer size
                  written),
      )

  -- A drive that is selected in the driver and handed over to the file system is read alike by both:
  -- `ata_read_sector` and `fs_read_sector_direct` return 0 with the bytes of a sector below its capacity,
  -- and leave its sectors as they are.
  pub ata_read_sector-fs_read_sector_direct :
      (k n lba : ℕ) (dev : AtaDevice) (s : System Device)
      → lba < Disk.capacity disk
      → Selected disk k n dev s
      → Mounted disk s
      → (d1 d2 : Device) × (ata_read_sector ports lba s
          ≡ some (pos 0, (fs_read_sector_direct ports lba s).1, with_dev d1 s))
        × (fs_read_sector_direct ports lba s
            ≡ (pos 0, slice ((drive_of s.dev).sectors lba) 0 512, with_dev d2 s))
        × ((drive_of d1).sectors ≡ (drive_of s.dev).sectors)
        × ((drive_of d2).sectors ≡ (drive_of s.dev).sectors)
  ata_read_sector-fs_read_sector_direct k n lba dev s h m m' =
      let (d1, reads, _, same) = ata_read_sector-sector disk k n lba dev s h m in
      let (d2, reads', _, same') = fs_read_sector_direct-sector disk lba s h m' in
      (
        d1,
        d2,
        reads
            ∙ ap (λ (r : ℤ × List ℕ × System Device). some (pos 0, r.1, with_dev d1 s))
                (sym reads'),
        reads',
        same,
        same',
      )
