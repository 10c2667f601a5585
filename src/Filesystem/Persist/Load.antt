-- ===== src/Filesystem/Persist/Load.antt =====
-- What `fs_load_from_disk` takes from a drive that keeps the law of `Disk`.
use szym_os_kernel.Prelude.{
  [], ◌∷◌, ℕ, zero, suc, ◌+◌, ◌*◌, ◌/◌, ◌%◌, ◌≤◌, ◌<◌, ◌≡◌, refl, sym, ap, ◌∙◌, true, ◌&&◌, arith,
  List, ◌==◌, leb, ltb, if◌then◌else◌, length, get_or,
}
use szym_os_kernel.Prelude.Bytes.{Memory, slice, memcpy, length-slice}
use szym_os_kernel.Prelude.Index.{list_ext, memcpy_lem}
use szym_os_kernel.Ports.{Ports}
use szym_os_kernel.System.{System, with_dev, with_fs, say}
use szym_os_kernel.Console.{format, uint}
use szym_os_kernel.Ata.Disk.{Disk, idle}
use szym_os_kernel.Filesystem.State.{Header, header_size, data_size, data_sectors, szymfs_magic}
use szym_os_kernel.Filesystem.Layout.{encode_header, decode_header}
use szym_os_kernel.Filesystem.Layout.RoundTrip.{
  HeaderFits, length-encode_header, decode_header-encode,
}
use szym_os_kernel.Filesystem.Persist.Save.{Holds}
use szym_os_kernel.Filesystem.Sector.Transfer.{Mounted, fs_read_sector_direct-sector}
use szym_os_kernel.Filesystem.Persist.{
  take_sector, load_header, load_data, load_files, fs_load_from_disk, disk_available,
}
use szym_os_kernel.Filesystem.Persist.Copy.{
  get_or-take_sector, length-take_sector, header_step, data_step,
}

module _ {Device : Type 0} {ports : Ports Device} {io drive : ℕ} (disk : Disk ports io drive) where
  open disk use {drive_of}

  pub load_header-reads :
      (n i : ℕ) (object : List ℕ) (s : System Device)
      → i + n ≤ 3
      → length object ≡ header_size
      → Mounted disk s
      → (object' : List ℕ) × (d' : Device) × (load_header ports n i object s
          ≡ (true, object', with_dev d' s))
        × ((drive_of d').phase ≡ idle)
        × ((drive_of d').sectors ≡ (drive_of s.dev).sectors)
        × (length object' ≡ header_size)
        × ((k : ℕ)
            → k < header_size
            → get_or object' k 0 ≡ (
                if leb (i * 512) k && ltb k ((i + n) * 512)
                then (drive_of s.dev).sectors (2048 + k / 512) (k % 512)
                else get_or object k 0))
  unfolding load_header
  load_header-reads zero i object s h size m =
      (object, s.dev, refl, m.at_rest, refl, size, λ k p. ground arith)
  load_header-reads (suc n) i object s h size m =
      let (d1, reads, rests, same) =
        fs_read_sector_direct-sector disk (2048 + i) s (omega (arith, Disk.room disk)) m in
      let sector = (drive_of s.dev).sectors (2048 + i) in
      let object1 = take_sector object i (slice sector 0 512) in
      let size1 : length object1 ≡ header_size =
        length-take_sector object i (slice sector 0 512) size ∙ size in
      let (object', d', goes_on, ends, kept, size', bytes) =
        load_header-reads n (i + 1) object1 (with_dev d1 s) (omega arith) size1
          (record { selected = m.selected; base = m.base; number = m.number; at_rest = rests }) in
      (
        object',
        d',
        rw reads goes_on,
        ends,
        kept ∙ same,
        size',
        λ k p.
            bytes k p
            ∙ rw (same, get_or-take_sector object i sector k (omega arith) size p)
                (header_step n i k object (drive_of s.dev).sectors),
      )

  load_data-reads :
      (n i : ℕ) (bytes : Memory) (s : System Device)
      → i + n ≤ 256
      → Mounted disk s
      → (bytes' : Memory) × (d' : Device) × (load_data ports n i bytes s ≡ (bytes', with_dev d' s))
        × ((drive_of d').phase ≡ idle)
        × ((drive_of d').sectors ≡ (drive_of s.dev).sectors)
        × ((k : ℕ)
            → bytes' k ≡ (
                if leb (i * 512) k && ltb k ((i + n) * 512)
                then (drive_of s.dev).sectors (2051 + k / 512) (k % 512)
                else bytes k))
  unfolding load_data
  load_data-reads zero i bytes s h m = (bytes, s.dev, refl, m.at_rest, refl, λ k. ground arith)
  load_data-reads (suc n) i bytes s h m =
      let (d1, reads, rests, same) =
        fs_read_sector_direct-sector disk (2051 + i) s (omega (arith, Disk.room disk)) m in
      let sector = (drive_of s.dev).sectors (2051 + i) in
      let bytes1 = memcpy bytes (i * 512) (slice sector 0 512) in
      let (bytes', d', goes_on, ends, kept, read) =
        load_data-reads n (i + 1) bytes1 (with_dev d1 s) (omega arith)
          (record { selected = m.selected; base = m.base; number = m.number; at_rest = rests }) in
      (
        bytes',
        d',
        rw reads goes_on,
        ends,
        kept ∙ same,
        λ k.
            read k
            ∙ rw
                (same, memcpy_lem bytes (i * 512) (slice sector 0 512) k, length-slice sector 0 512)
                (data_step n i k bytes (drive_of s.dev).sectors),
      )

  -- With a drive mounted and selected that holds a header whose fields fit their C types, with the right
  -- magic number, and its data, `fs_load_from_disk` puts both into memory and keeps the flag that says
  -- whether the file system is initialised.
  pub fs_load_from_disk-Holds :
      (behind : List ℕ) (s : System Device) (h : Header) (bytes : Memory)
      → Mounted disk s
      → disk_available s ≡ true
      → length (encode_header s.fs.header) ≡ header_size
      → HeaderFits h
      → h.magic ≡ szymfs_magic
      → Holds (drive_of s.dev).sectors h bytes
      → let s' = fs_load_from_disk ports behind s in
        (s'.fs.header ≡ h)
        × ((k : ℕ) → k < data_size → s'.fs.bytes k ≡ bytes k)
        × (s'.fs.initialized ≡ s.fs.initialized)
  unfolding fs_load_from_disk load_files
  fs_load_from_disk-Holds behind s h bytes m available size fits magic holds =
      let (object, d1, reads, rests, same, size', header) =
        load_header-reads 3 0 (encode_header s.fs.header) s (omega arith) size m in
      let whole : object ≡ encode_header h =
        list_ext object (encode_header h) (size' ∙ sym (length-encode_header h fits)) (λ k p.
          header k (omega arith) ∙ ground (arith, holds.header_there (k / 512) (k % 512))) in
      let decoded : decode_header object ≡ h =
        ap decode_header whole ∙ decode_header-encode h fits in
      let f2 = record (s.fs) { header = decode_header object } in
      let s2 = with_fs f2 (with_dev d1 s) in
      let s3 =
        say (format "[DEBUG] Reading %d data sectors...\n" (uint data_sectors ∷ []) ∷ []) s2 in
      let (bytes', d2, loads, ends, kept, loaded) =
        load_data-reads 256 0 s.fs.bytes s3 (omega arith)
          (record { selected = m.selected; base = m.base; number = m.number; at_rest = rests }) in
      let right : ((decode_header object).magic == szymfs_magic) ≡ true =
        ground (arith, ap (λ (x : Header). x.magic) decoded) in
      rw (reads, available, right, loads)
        (
          decoded,
          λ k p.
              loaded k
              ∙ ground (
                arith,
                ap (λ (f : ℕ → ℕ → ℕ). f (2051 + k / 512) (k % 512)) same,
                holds.data_there (k / 512) (k % 512),
              ),
          refl,
        )
