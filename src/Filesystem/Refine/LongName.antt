-- ===== src/Filesystem/Refine/LongName.antt =====
-- `fs_create_file` with a name that does not fit an entry.
use szym_os_kernel.Prelude.{
  ℕ, ◌+◌, ◌<◌, ◌≤◌, ◌≡◌, refl, ap, ◌∙◌, inl, inr, true, false, some, List, [], ◌∷◌, arith, pos,
  negsuc, ◌==◌, Bool-cases, length, get_elem?, take, modify,
}
use szym_os_kernel.CString.{text_of, text_eq}
use szym_os_kernel.CString.Compare.{text_of-cons, strlen-text}
use szym_os_kernel.Ports.{Ports}
use szym_os_kernel.System.{System, with_fs}
use szym_os_kernel.Filesystem.State.{Header, FileEntry, max_files, max_filename, max_file_size}
use szym_os_kernel.Filesystem.Files.{fs_find_file, fill_entry, store_file}
use szym_os_kernel.Filesystem.Persist.{fs_save_to_disk}
use szym_os_kernel.Filesystem.Persist.Frame.{fs_save_to_disk-KeepsFiles}
use szym_os_kernel.Filesystem.Ops.{fs_create_file, fs_file_exists}
use szym_os_kernel.Filesystem.Directory.{name_text, holds, count_used, FilesAreValid, FsIsValid}
use szym_os_kernel.Filesystem.Directory.Find.{
  find_slot, fs_find_file-slot, fs_find_free_slot-cases, EntryIsValid-at,
}
use szym_os_kernel.Filesystem.Directory.Entry.{fill_entry-IsValid, name_text-fill_entry}
use szym_os_kernel.Filesystem.Directory.Store.{FilesAreValid-store}

-- The terminator takes a byte of its buffer.
length-text_of : (b t : List ℕ) → text_of b ≡ some t → length t < length b
unfolding text_of
length-text_of [] t h = cc
length-text_of (c ∷ b) t h = elim (Bool-cases (c == 0)) [
  | inl e ↦ ground arith
  | inr e ↦ let (u, hu, ht) = text_of-cons c b t h e in rw ht (omega (arith, length-text_of b u hu))
]

text_eq-longer : (s t : List ℕ) → length s < length t → text_eq s t ≡ false
unfolding text_eq
text_eq-longer s [] h = absurd (omega arith)
text_eq-longer [] (d ∷ t) h = refl
text_eq-longer (c ∷ s) (d ∷ t) h = ground (arith, text_eq-longer s t (omega arith))

find_slot-long :
    (i : ℕ) (files : List FileEntry) (t : List ℕ)
    → FilesAreValid i files
    → max_filename ≤ length t
    → find_slot i files t ≡ negsuc 0
unfolding find_slot holds
find_slot-long i [] t v h = refl
find_slot-long i (e ∷ es) t v h = ground (
  arith,
  text_eq-longer (name_text e) t
      (omega (arith, length-text_of e.name (name_text e) v.0.terminated, v.0.name_size)),
  find_slot-long (i + 1) es t v.1 h,
)

module _ {Device : Type 0} (ports : Ports Device) (behind name content t c : List ℕ)
    (s : System Device) (v : FsIsValid s.fs) (init : s.fs.initialized ≡ true)
    (named : text_of name ≡ some t) (long : max_filename ≤ length t)
    (filled : text_of content ≡ some c) (small : length c ≤ max_file_size) where
  abbrev cut : List ℕ
  cut = take 31 t

  stored-valid :
      (k : ℕ) (e : FileEntry)
      → get_elem? s.fs.header.files k ≡ some e
      → e.used ≡ 0
      → FilesAreValid 0 (modify s.fs.header.files k (fill_entry name 31 (length c) k))
  stored-valid k e at free =
      let size = (EntryIsValid-at 0 k s.fs.header.files v.files_valid at).name_size in
      FilesAreValid-store (fill_entry name 31 (length c) k) k cut c e
        (record {
          was_unused = free;
          now_used = unfold fill_entry in refl;
          valid =
              fill_entry-IsValid name t 31 (length c) k e named (omega arith) (omega arith) size
                small;
          name_is =
              name_text-fill_entry name t 31 (length c) k e named (omega arith) (omega arith) size;
          size_is = unfold fill_entry in refl;
          offset_is = unfold fill_entry in refl;
        })
        k 0 s.fs.header.files at (omega arith) v.files_valid

  lost :
      (files : List FileEntry) → FilesAreValid 0 files → fs_find_file files name ≡ some (negsuc 0)
  lost files fv =
      fs_find_file-slot files name t fv named ∙ ap some (find_slot-long 0 files t fv long)

  gone :
      (k : ℕ) (e : FileEntry)
      → get_elem? s.fs.header.files k ≡ some e
      → e.used ≡ 0
      → fs_find_file (store_file s.fs k name 31 content (length c)).header.files name
        ≡ some (negsuc 0)
  unfolding store_file
  gone k e at free = lost _ (stored-valid k e at free)

  -- On a valid, initialised file system with a slot left, `fs_create_file` with a terminated name of
  -- 32 bytes or more and a terminated content of at most 4096 bytes returns 0, and after it
  -- `fs_file_exists` says that there is no file of the name.
  pub fs_create_file-long :
      count_used s.fs.header.files < max_files
      → (s' : System Device) × (fs_create_file ports behind name content s ≡ some (pos 0, s'))
        × (fs_file_exists name s'.fs ≡ some false)
  unfolding fs_create_file fs_file_exists
  fs_create_file-long room = elim (fs_find_free_slot-cases s.fs.header.files) [
    | inl (full, all) ↦ absurd (omega (arith, v.files_size))
    | inr (k, e, free, stored, unused) ↦
        let f' = store_file s.fs k name 31 content (length c) in
        let kept = fs_save_to_disk-KeepsFiles ports behind (with_fs f' s) in
        let same = ap (λ (h : Header). h.files) kept.header in
        (
          fs_save_to_disk ports behind (with_fs f' s),
          ground (
            arith,
            lost s.fs.header.files v.files_valid,
            strlen-text content c filled,
            strlen-text name t named,
          ),
          rw (same, gone k e stored unused),
        )
  ]
