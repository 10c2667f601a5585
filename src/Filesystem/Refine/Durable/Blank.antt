-- ===== src/Filesystem/Refine/Durable/Blank.antt =====
-- The first start of kernel/filesystem.c with a drive that holds zeroes.
use szym_os_kernel.Prelude.{
  ℕ, zero, suc, ◌+◌, ◌*◌, ◌<◌, ◌≡◌, refl, sym, ap, ◌∙◌, inl, true, arith, none, List, [], ◌∷◌, map,
  length, length-replicate, get_or, replicate,
}
use szym_os_kernel.Prelude.Bytes.{Memory}
use szym_os_kernel.Prelude.Index.{AreBytes, get_or-replicate_zero}
use szym_os_kernel.CString.{text_of}
use szym_os_kernel.Ports.{Ports}
use szym_os_kernel.System.{System, with_fs}
use szym_os_kernel.Ata.Disk.{Disk, idle}
use szym_os_kernel.Filesystem.State.{FileEntry, FsState, Header, data_size}
use szym_os_kernel.Filesystem.Layout.{le32, encode_entry, encode_entries, encode_header}
use szym_os_kernel.Filesystem.Layout.RoundTrip.{length-encode_header}
use szym_os_kernel.Filesystem.Persist.{disk_available, unused, reset_fs, fs_load_from_disk, fs_init}
use szym_os_kernel.Filesystem.Persist.Bytes.{AllStored, HeaderIsStored}
use szym_os_kernel.Filesystem.Directory.{
  name_text, holds, view, view_files, count_used, FilesAreValid, AreDistinct,
}
use szym_os_kernel.Filesystem.Refine.Session.{find, Represents}
use szym_os_kernel.Filesystem.Refine.Reboot.{Restarts}
use szym_os_kernel.Filesystem.Refine.Durable.{IsDurable}
use szym_os_kernel.Filesystem.Refine.Durable.Format.{
  memset-bytes, formatted, Stands, IsDurable-say, fs_load_from_disk-IsFormatted,
}

abbrev zero_entry : FileEntry
zero_entry = record {
  name = replicate 32 0;
  size = 0;
  offset = 0;
  used = 0;
  padding = 0 ∷ 0 ∷ 0 ∷ [];
}

abbrev zero_header : Header
zero_header = record { magic = 0; file_count = 0; files = replicate 32 zero_entry }

zero-encode : encode_header zero_header ≡ replicate 1416 0
unfolding encode_header encode_entries encode_entry le32 replicate
zero-encode = refl

zeroes-AreBytes : (n : ℕ) → AreBytes (replicate n 0)
zeroes-AreBytes n j = omega (arith, get_or-replicate_zero n j)

zero-AllStored : (n : ℕ) → AllStored (replicate n zero_entry)
unfolding replicate
zero-AllStored zero = tt
zero-AllStored (suc n) = (
  record {
    fits = record {
      name_size = length-replicate {A = ℕ} 32 0;
      size_fits = omega arith;
      offset_fits = omega arith;
      used_fits = omega arith;
      padding_size = refl;
    };
    name_bytes = zeroes-AreBytes 32;
    padding_bytes = zeroes-AreBytes 3;
  },
  zero-AllStored n,
)

zero_header-IsStored : HeaderIsStored zero_header
zero_header-IsStored = record {
  magic_fits = omega arith;
  count_fits = omega arith;
  files_size = length-replicate {A = FileEntry} 32 zero_entry;
  entries = zero-AllStored 32;
}

zero-valid : (n slot : ℕ) → FilesAreValid slot (map unused (replicate n zero_entry))
unfolding replicate name_text text_of
zero-valid zero slot = tt
zero-valid (suc n) slot = (
  record {
    name_size = length-replicate {A = ℕ} 32 0;
    terminated = refl;
    size_fits = omega arith;
    placed = inl refl;
  },
  zero-valid n (slot + 1),
)

zero-distinct : (n : ℕ) → AreDistinct (map unused (replicate n zero_entry))
unfolding replicate
zero-distinct zero = tt
zero-distinct (suc n) = (inl refl, zero-distinct n)

zero-count : (n : ℕ) → count_used (map unused (replicate n zero_entry)) ≡ 0
unfolding replicate count_used
zero-count zero = refl
zero-count (suc n) = omega (arith, zero-count n)

zero-view :
    (n : ℕ) (b : Memory) (t : List ℕ) → view_files b (map unused (replicate n zero_entry)) t ≡ none
unfolding replicate view_files holds
zero-view zero b t = refl
zero-view (suc n) b t = zero-view n b t

zero-length : (n : ℕ) → length (map unused (replicate n zero_entry)) ≡ n
unfolding replicate
zero-length zero = refl
zero-length (suc n) = omega (arith, zero-length n)

-- The header of a drive that has been formatted shows no file.
formatted-Represents :
    {Device : Type 0} (s : System Device)
    → s.fs.header ≡ formatted zero_header
    → s.fs.initialized ≡ true
    → Represents s []
unfolding view find
formatted-Represents s h ready = record {
  valid = record {
    files_size = rw h (zero-length 32);
    files_valid = rw h (zero-valid 32 0);
    distinct = rw h (zero-distinct 32);
    counted = rw h (sym (zero-count 32));
    magic_right = rw h refl;
  };
  ready = ready;
  same = λ u. rw h (zero-view 32 s.fs.bytes u);
  number = rw h (zero-count 32);
  names_differ = tt;
}

module _ {Device : Type 0} {ports : Ports Device} {io drive : ℕ} (disk : Disk ports io drive)
    (behind : List ℕ) (behind_bytes : AreBytes behind) where
  open disk use {drive_of}

  -- If a drive that behaves as documented is selected and handed over, and the three sectors from 2048
  -- on hold zeroes, then `fs_init` makes a file system: it is initialised, valid and holds no file,
  -- and the drive holds it, too, so that it is in step with memory from the first call on. Memory may
  -- hold anything before that its C types can hold.
  pub fs_init-IsDurable :
      (m : System Device)
      → Restarts disk behind m
      → (drive_of m.dev).phase ≡ idle
      → ((k : ℕ) → m.fs.bytes k < 256)
      → ((i j : ℕ) → i < 3 → j < 512 → (drive_of m.dev).sectors (2048 + i) j ≡ 0)
      → Represents (fs_init ports behind m) []
        × IsDurable disk behind behind_bytes (fs_init ports behind m)
  unfolding fs_init disk_available
  fs_init-IsDurable m re rests bytes zeroes =
      let m1 = with_fs (reset_fs m.fs) m in
      let stands : Stands disk behind behind_bytes zero_header m1.dev = λ i j p q r.
        zeroes i j p q
        ∙ sym (
            ap (λ xs. get_or xs (i * 512 + j) 0) zero-encode
            ∙ get_or-replicate_zero 1416 (i * 512 + j)) in
      let made =
        fs_load_from_disk-IsFormatted disk behind behind_bytes m1 zero_header
          (record { selected = re.selected; base = re.base; number = re.number; at_rest = rests })
          re.available (length-encode_header (reset_fs m.fs).header re.fits)
          (memset-bytes m.fs.bytes 0 0 data_size (omega arith) bytes) zero_header-IsStored refl
          stands in
      let loaded = fs_load_from_disk ports behind m1 in
      let files : (fs_init ports behind m).fs ≡ loaded.fs = ground (arith, re.available) in
      let ata : (fs_init ports behind m).ata ≡ loaded.ata = ground (arith, re.available) in
      let dev : (fs_init ports behind m).dev ≡ loaded.dev = ground (arith, re.available) in
      (
        formatted-Represents (fs_init ports behind m)
            (ap (λ (f : FsState). f.header) files ∙ made.header)
            (ap (λ (f : FsState). f.initialized) files ∙ made.initialized),
        IsDurable-say disk behind behind_bytes loaded (fs_init ports behind m) files ata dev
            made.durable,
      )
