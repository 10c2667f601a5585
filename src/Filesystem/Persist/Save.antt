-- ===== src/Filesystem/Persist/Save.antt =====
-- What `fs_save_to_disk` leaves on a drive that keeps the law of `Disk`.
use szym_os_kernel.Prelude.{
  ℕ, zero, suc, ◌+◌, ◌-◌, ◌*◌, ◌≤◌, ◌<◌, ◌≡◌, refl, ◌∙◌, Bool, true, ◌&&◌, arith, List, ◌++◌, ◌==◌,
  leb, ltb, if◌then◌else◌, length, get_or,
}
use szym_os_kernel.Prelude.Bytes.{Memory, slice, length-slice}
use szym_os_kernel.Prelude.Index.{AreBytes, get_or-slice, get_or-out, get_or-append_lem}
use szym_os_kernel.Ports.{Ports}
use szym_os_kernel.System.{System, with_dev}
use szym_os_kernel.Ata.Disk.{Disk, idle}
use szym_os_kernel.Filesystem.State.{Header, header_size, data_size}
use szym_os_kernel.Filesystem.Layout.{encode_header}
use szym_os_kernel.Filesystem.Sector.Transfer.{Mounted, fs_write_sector_direct-sector}
use szym_os_kernel.Filesystem.Persist.{
  disk_available, sector_buffer, header_sector, copy_size, save_header, save_data, fs_save_to_disk,
}
use szym_os_kernel.Filesystem.Persist.HeaderSectors.{
  get_or-sector_buffer, sector_buffer-AreBytes, get_or-header_sector, header_sector-AreBytes,
}

-- The drive holds the bytes of a header from sector 2048 on, and those of `fs_data` from 2051 on.
pub record Holds (sectors : ℕ → ℕ → ℕ) (h : Header) (bytes : Memory) : Type 0 where
  pub header_there :
      (i j : ℕ)
      → i < 3
      → j < 512
      → i * 512 + j < header_size
      → sectors (2048 + i) j ≡ get_or (encode_header h) (i * 512 + j) 0
  pub data_there : (i j : ℕ) → i < 256 → j < 512 → sectors (2051 + i) j ≡ bytes (i * 512 + j)

module _ {Device : Type 0} {ports : Ports Device} {io drive : ℕ} (disk : Disk ports io drive) where
  open disk use {drive_of}

  -- The sectors after `n` of them from `first + i` on have been given the bytes of `image`.
  abbrev pub Overwritten : ℕ → ℕ → ℕ → (ℕ → ℕ → ℕ) → Device → Device → Type 0
  Overwritten first n i image d d' =
      (l j : ℕ)
      → (drive_of d').sectors l j ≡ (
          if leb (first + i) l && (ltb l (first + i + n) && ltb j 512)
          then image (l - first) j
          else (drive_of d).sectors l j)

  Overwritten-sector :
      (first n i : ℕ) (image : ℕ → ℕ → ℕ) (d d1 d' : Device)
      → ((l j : ℕ)
          → (drive_of d1).sectors l j
            ≡ (if l == first + i && ltb j 512 then image i j else (drive_of d).sectors l j))
      → Overwritten first n (i + 1) image d1 d'
      → Overwritten first (suc n) i image d d'
  Overwritten-sector first n i image d d1 d' now rest l j =
      rest l j ∙ rw (now l j) (at (l == first + i) refl)
    where
      at :
          (b : Bool)
          → (l == first + i) ≡ b
          → (if leb (first + (i + 1)) l && (ltb l (first + (i + 1) + n) && ltb j 512)
              then image (l - first) j
              else if l == first + i && ltb j 512
              then image i j
              else (drive_of d).sectors l j)
            ≡ (if leb (first + i) l && (ltb l (first + i + suc n) && ltb j 512)
                then image (l - first) j
                else (drive_of d).sectors l j)
      at b e = ground arith

  save_header-writes :
      (n i : ℕ) (object : List ℕ) (s : System Device)
      → i + n ≤ 3
      → AreBytes object
      → Mounted disk s
      → (d' : Device) × (save_header ports n i object s ≡ (true, with_dev d' s))
        × ((drive_of d').phase ≡ idle)
        × Overwritten 2048 n i (λ k j. get_or (header_sector object k) j 0) s.dev d'
  unfolding save_header
  save_header-writes zero i object s h fits m = (s.dev, refl, m.at_rest, λ l j. ground arith)
  save_header-writes (suc n) i object s h fits m =
      let (d1, writes, rests, now) =
        fs_write_sector_direct-sector disk (2048 + i) (header_sector object i) s
          (omega (arith, Disk.room disk)) (header_sector-AreBytes object i fits) m in
      let (d', goes_on, ends, rest) =
        save_header-writes n (i + 1) object (with_dev d1 s) (omega arith) fits
          (record { selected = m.selected; base = m.base; number = m.number; at_rest = rests }) in
      (
        d',
        rw writes goes_on,
        ends,
        Overwritten-sector 2048 n i (λ k j. get_or (header_sector object k) j 0) s.dev d1 d' now
            rest,
      )

  abbrev data_buffer : Memory → ℕ → List ℕ
  data_buffer bytes i = sector_buffer (slice bytes (i * 512) (copy_size (i * 512) data_size))

  get_or-data_buffer :
      (bytes : Memory) (i j : ℕ)
      → i < 256
      → j < 512
      → get_or (data_buffer bytes i) j 0 ≡ bytes (i * 512 + j)
  get_or-data_buffer bytes i j h k =
      let size : copy_size (i * 512) data_size ≡ 512 = ground arith in
      get_or-sector_buffer (slice bytes (i * 512) (copy_size (i * 512) data_size)) j
      ∙ rw size (ground (arith, get_or-slice bytes (i * 512) 512 j k))

  data_buffer-AreBytes :
      (bytes : Memory) (i : ℕ) → ((k : ℕ) → bytes k < 256) → AreBytes (data_buffer bytes i)
  data_buffer-AreBytes bytes i fits =
      sector_buffer-AreBytes (slice bytes (i * 512) (copy_size (i * 512) data_size)) (λ j. ground (
        arith,
        get_or-slice bytes (i * 512) (copy_size (i * 512) data_size) j,
        get_or-out (slice bytes (i * 512) (copy_size (i * 512) data_size)) j,
        length-slice bytes (i * 512) (copy_size (i * 512) data_size),
        fits (i * 512 + j),
      ))

  save_data-writes :
      (n i : ℕ) (bytes : Memory) (s : System Device)
      → i + n ≤ 256
      → ((k : ℕ) → bytes k < 256)
      → Mounted disk s
      → (d' : Device) × (save_data ports n i bytes s ≡ (true, with_dev d' s))
        × ((drive_of d').phase ≡ idle)
        × Overwritten 2051 n i (λ k j. get_or (data_buffer bytes k) j 0) s.dev d'
  unfolding save_data
  save_data-writes zero i bytes s h fits m = (s.dev, refl, m.at_rest, λ l j. ground arith)
  save_data-writes (suc n) i bytes s h fits m =
      let (d1, writes, rests, now) =
        fs_write_sector_direct-sector disk (2051 + i) (data_buffer bytes i) s
          (omega (arith, Disk.room disk)) (data_buffer-AreBytes bytes i fits) m in
      let (d', goes_on, ends, rest) =
        save_data-writes n (i + 1) bytes (with_dev d1 s) (omega arith) fits
          (record { selected = m.selected; base = m.base; number = m.number; at_rest = rests }) in
      (
        d',
        rw writes goes_on,
        ends,
        Overwritten-sector 2051 n i (λ k j. get_or (data_buffer bytes k) j 0) s.dev d1 d' now rest,
      )

  -- With a drive selected and mounted, and bytes in memory, `fs_save_to_disk` leaves the sectors that it
  -- fills from the header and from the data on the drive, and the drive at rest.
  pub record Written (behind : List ℕ) (s : System Device) (d : Device) : Type 0 where
    pub header_sectors :
        (i j : ℕ)
        → i < 3
        → j < 512
        → (drive_of d).sectors (2048 + i) j
          ≡ get_or (header_sector (encode_header s.fs.header ++ behind) i) j 0
    pub data_sectors :
        (i j : ℕ) → i < 256 → j < 512 → (drive_of d).sectors (2051 + i) j ≡ s.fs.bytes (i * 512 + j)
    pub at_rest : (drive_of d).phase ≡ idle

  pub fs_save_to_disk-Written :
      (behind : List ℕ) (s : System Device)
      → Mounted disk s
      → disk_available s ≡ true
      → AreBytes (encode_header s.fs.header ++ behind)
      → ((k : ℕ) → s.fs.bytes k < 256)
      → Written behind s (fs_save_to_disk ports behind s).dev
  unfolding fs_save_to_disk
  fs_save_to_disk-Written behind s m available object_fits fits =
      let object = encode_header s.fs.header ++ behind in
      let (d1, headed, rests, header) =
        save_header-writes 3 0 object s (omega arith) object_fits m in
      let m1 : Mounted disk (with_dev d1 s) = record {
        selected = m.selected;
        base = m.base;
        number = m.number;
        at_rest = rests;
      } in
      let (d2, done, ends, data_written) =
        save_data-writes 256 0 s.fs.bytes (with_dev d1 s) (omega arith) fits m1 in
      let dev : (fs_save_to_disk ports behind s).dev ≡ d2 = ground (arith, headed, done) in
      rw dev (record {
        header_sectors = λ i j p q. data_written (2048 + i) j ∙ ground (arith, header (2048 + i) j);
        data_sectors = λ i j p q.
            data_written (2051 + i) j ∙ ground (arith, get_or-data_buffer s.fs.bytes i j);
        at_rest = ends;
      })

  -- The drive then holds the header and the data.
  pub fs_save_to_disk-Holds :
      (behind : List ℕ) (s : System Device)
      → Mounted disk s
      → disk_available s ≡ true
      → length (encode_header s.fs.header) ≡ header_size
      → AreBytes (encode_header s.fs.header ++ behind)
      → ((k : ℕ) → s.fs.bytes k < 256)
      → Holds (drive_of (fs_save_to_disk ports behind s).dev).sectors s.fs.header s.fs.bytes
        × ((drive_of (fs_save_to_disk ports behind s).dev).phase ≡ idle)
  fs_save_to_disk-Holds behind s m available size object_fits fits =
      let object = encode_header s.fs.header ++ behind in
      let w = fs_save_to_disk-Written behind s m available object_fits fits in
      (
        record {
          header_there = λ i j p q r.
              w.header_sectors i j p q
              ∙ ground (
                arith,
                get_or-header_sector object i j,
                get_or-append_lem (encode_header s.fs.header) behind (i * 512 + j),
              );
          data_there = w.data_sectors;
        },
        w.at_rest,
      )
