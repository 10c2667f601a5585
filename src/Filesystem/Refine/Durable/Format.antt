-- ===== src/Filesystem/Refine/Durable/Format.antt =====
-- A drive without a file system: `fs_load_from_disk` and `fs_init` of kernel/filesystem.c make one.
use szym_os_kernel.Prelude.{
  ℕ, zero, suc, ◌+◌, ◌*◌, ◌/◌, ◌%◌, ◌<◌, ◌≡◌, refl, sym, ap, ◌∙◌, true, false, arith, Bool, List,
  [], ◌∷◌, map, length, get_or, ◌==◌, if◌then◌else◌,
}
use szym_os_kernel.Prelude.Bytes.{Memory, memset, poke}
use szym_os_kernel.Prelude.Index.{AreBytes, list_ext}
use szym_os_kernel.Ports.{Ports}
use szym_os_kernel.Console.{notice, yellow}
use szym_os_kernel.System.{System, say, with_fs, with_dev}
use szym_os_kernel.Ata.Disk.{Disk}
use szym_os_kernel.Filesystem.State.{
  FileEntry, FsState, Header, szymfs_magic, data_size, header_size,
}
use szym_os_kernel.Filesystem.Layout.{encode_header, decode_header}
use szym_os_kernel.Filesystem.Layout.RoundTrip.{length-encode_header, decode_header-encode}
use szym_os_kernel.Filesystem.Sector.Transfer.{Mounted}
use szym_os_kernel.Filesystem.Persist.{
  disk_available, unused, fs_save_to_disk, create_filesystem, fs_load_from_disk,
}
use szym_os_kernel.Filesystem.Persist.Load.{load_header-reads}
use szym_os_kernel.Filesystem.Persist.Bytes.{AllStored, HeaderIsStored, HeaderIsStored-Fits}
use szym_os_kernel.Filesystem.Persist.Frame.{fs_save_to_disk-KeepsFiles}
use szym_os_kernel.Filesystem.Refine.Durable.{IsDurable, fs_save_to_disk-IsDurable}

pub memset-bytes :
    (m : Memory) (a v n : ℕ) → v < 256 → ((k : ℕ) → m k < 256) → (k : ℕ) → memset m a v n k < 256
unfolding memset poke
memset-bytes m a v zero h p k = p k
memset-bytes m a v (suc n) h p k =
    memset-bytes (poke m a v) (a + 1) v n h (λ j. ground (arith, h, p j)) k

unused-AllStored : (files : List FileEntry) → AllStored files → AllStored (map unused files)
unused-AllStored [] h = tt
unused-AllStored (e ∷ es) h = (
  record {
    fits = record {
      name_size = h.0.fits.name_size;
      size_fits = h.0.fits.size_fits;
      offset_fits = h.0.fits.offset_fits;
      used_fits = omega arith;
      padding_size = h.0.fits.padding_size;
    };
    name_bytes = h.0.name_bytes;
    padding_bytes = h.0.padding_bytes;
  },
  unused-AllStored es h.1,
)

length-unused : (files : List FileEntry) → length (map unused files) ≡ length files
length-unused [] = refl
length-unused (e ∷ es) = ap suc (length-unused es)

-- The header that a drive without a file system gets, when its sectors held `h`.
abbrev pub formatted : Header → Header
formatted h = record { magic = szymfs_magic; file_count = 0; files = map unused h.files }

formatted-IsStored : (h : Header) → HeaderIsStored h → HeaderIsStored (formatted h)
formatted-IsStored h s = record {
  magic_fits = omega arith;
  count_fits = omega arith;
  files_size = length-unused h.files ∙ s.files_size;
  entries = unused-AllStored h.files s.entries;
}

module _ {Device : Type 0} {ports : Ports Device} {io drive : ℕ} (disk : Disk ports io drive)
    (behind : List ℕ) (behind_bytes : AreBytes behind) where
  open disk use {drive_of}

  -- A new file system: no entry is in use, the drive holds it, and the flag of the start is kept.
  pub record IsFormatted (h : Header) (s s' : System Device) : Type 0 where
    pub durable : IsDurable disk behind behind_bytes s'
    pub header : s'.fs.header ≡ formatted h
    pub initialized : s'.fs.initialized ≡ s.fs.initialized

  pub IsDurable-say :
      (s s' : System Device)
      → s'.fs ≡ s.fs
      → s'.ata ≡ s.ata
      → s'.dev ≡ s.dev
      → IsDurable disk behind behind_bytes s
      → IsDurable disk behind behind_bytes s'
  unfolding disk_available
  IsDurable-say s s' f a d h = record {
    ready = record {
      mounted = record {
        selected = ap (λ (x : FsState). x.drive_selected) f ∙ h.ready.mounted.selected;
        base = ap (λ (x : FsState). x.drive_io_base) f ∙ h.ready.mounted.base;
        number = ap (λ (x : FsState). x.drive_num) f ∙ h.ready.mounted.number;
        at_rest = ap (λ x. (drive_of x).phase) d ∙ h.ready.mounted.at_rest;
      };
      available = ground (arith, a, h.ready.available);
      header = rw f h.ready.header;
      data_bytes = rw f h.ready.data_bytes;
    };
    written = rw (f, d) h.written;
  }

  either :
      (b : Bool) (h : Header) (s s1 s2 : System Device)
      → IsFormatted h s s1
      → IsFormatted h s s2
      → IsFormatted h s (if b then s1 else s2)
  either true h s s1 s2 p q = p
  either false h s s1 s2 p q = q

  create_filesystem-IsFormatted :
      (s : System Device)
      → Mounted disk s
      → disk_available s ≡ true
      → HeaderIsStored s.fs.header
      → ((k : ℕ) → s.fs.bytes k < 256)
      → IsFormatted s.fs.header s (create_filesystem ports behind s)
  unfolding create_filesystem disk_available
  create_filesystem-IsFormatted s m available header bytes =
      let fresh : FsState = record (s.fs) {
        header = formatted s.fs.header;
        bytes = memset s.fs.bytes 0 0 data_size;
        persistent = true;
      } in
      let s1 =
        with_fs fresh
          (say (notice yellow "[INFO] No existing filesystem found, creating new one\n") s) in
      let kept = fs_save_to_disk-KeepsFiles ports behind s1 in
      let saved = fs_save_to_disk ports behind s1 in
      let durable : IsDurable disk behind behind_bytes saved =
        fs_save_to_disk-IsDurable disk behind behind_bytes s1 (record {
          mounted = record {
            selected = m.selected;
            base = m.base;
            number = m.number;
            at_rest = m.at_rest;
          };
          available = available;
          header = formatted-IsStored s.fs.header header;
          data_bytes = memset-bytes s.fs.bytes 0 0 data_size (omega arith) bytes;
        }) in
      either saved.fs.persistent s.fs.header s saved _
        (record { durable = durable; header = kept.header; initialized = kept.initialized })
        (record {
          durable = IsDurable-say saved _ refl refl refl durable;
          header = kept.header;
          initialized = kept.initialized;
        })

  -- The sectors of the header hold the bytes of `h`.
  abbrev pub Stands : Header → Device → Type 0
  Stands h d =
      (i j : ℕ)
      → i < 3
      → j < 512
      → i * 512 + j < header_size
      → (drive_of d).sectors (2048 + i) j ≡ get_or (encode_header h) (i * 512 + j) 0

  pub fs_load_from_disk-IsFormatted :
      (s : System Device) (h : Header)
      → Mounted disk s
      → disk_available s ≡ true
      → length (encode_header s.fs.header) ≡ header_size
      → ((k : ℕ) → s.fs.bytes k < 256)
      → HeaderIsStored h
      → (h.magic == szymfs_magic) ≡ false
      → Stands h s.dev
      → IsFormatted h s (fs_load_from_disk ports behind s)
  unfolding fs_load_from_disk disk_available
  fs_load_from_disk-IsFormatted s h m available size bytes stored other stands =
      let fits = HeaderIsStored-Fits h stored in
      let (object, d1, reads, rests, same, size', header) =
        load_header-reads disk 3 0 (encode_header s.fs.header) s (omega arith) size m in
      let whole : object ≡ encode_header h =
        list_ext object (encode_header h) (size' ∙ sym (length-encode_header h fits))
          (λ k p. header k (omega arith) ∙ ground (arith, stands (k / 512) (k % 512))) in
      let decoded : decode_header object ≡ h =
        ap decode_header whole ∙ decode_header-encode h fits in
      let s2 = with_fs (record (s.fs) { header = decode_header object }) (with_dev d1 s) in
      let made =
        create_filesystem-IsFormatted s2
          (record { selected = m.selected; base = m.base; number = m.number; at_rest = rests })
          available (rw decoded stored) bytes in
      let wrong : ((decode_header object).magic == szymfs_magic) ≡ false =
        ap (λ (x : Header). x.magic == szymfs_magic) decoded ∙ other in
      rw (reads, available, wrong)
        (record {
          durable = made.durable;
          header = made.header ∙ ap formatted decoded;
          initialized = made.initialized;
        })
