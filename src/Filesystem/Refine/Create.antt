-- ===== src/Filesystem/Refine/Create.antt =====
-- `fs_create_file` against the directory.
use szym_os_kernel.Prelude.{
  ℕ, ◌+◌, ◌<◌, ◌≤◌, ◌≡◌, refl, sym, ap, ◌∙◌, inl, inr, true, false, none, some, List, arith, ℤ, pos,
  negsuc, eq_ℤ, ltb, Bool-cases, length, get_elem?,
}
use szym_os_kernel.CString.{text_of}
use szym_os_kernel.CString.Compare.{strlen-text}
use szym_os_kernel.Ports.{Ports}
use szym_os_kernel.System.{System, with_fs}
use szym_os_kernel.Filesystem.State.{Header, FileEntry, max_filename, max_file_size}
use szym_os_kernel.Filesystem.Files.{fs_find_file, store_file}
use szym_os_kernel.Filesystem.Persist.{fs_save_to_disk}
use szym_os_kernel.Filesystem.Persist.Frame.{fs_save_to_disk-KeepsFiles}
use szym_os_kernel.Filesystem.Ops.{fs_create_file}
use szym_os_kernel.Filesystem.Directory.{view, count_used, any_holds, FsIsValid}
use szym_os_kernel.Filesystem.Directory.Find.{
  find_slot, find_slot-cases, fs_find_file-slot, fs_find_free_slot-cases,
}
use szym_os_kernel.Filesystem.Refine.{create_code, create_count, create_view, Leaves}
use szym_os_kernel.Filesystem.Refine.Keep.{
  FsIsValid-keeps, view-keeps, store_file-IsValid, view-store_file, count_used-store_file,
  stored_length-short, count_used-lt,
}

module _ {Device : Type 0} (ports : Ports Device) (behind name content t c : List ℕ)
    (s : System Device) (v : FsIsValid s.fs) (init : s.fs.initialized ≡ true)
    (named : text_of name ≡ some t) (short : length t < max_filename)
    (filled : text_of content ≡ some c) where
  -- The state is left as it is when the result owed is not 0.
  refused :
      (code : ℤ)
      → create_code s.fs t c ≡ code
      → eq_ℤ code (pos 0) ≡ false
      → Leaves (create_code s.fs t c) (create_count s.fs t c) (create_view s.fs t c) s (code, s)
  unfolding create_view create_count
  refused code owed fails = record {
    result = sym owed;
    valid = v;
    counted = rw (owed, fails) (omega arith);
    directory = λ u. rw (owed, fails);
    ready = init;
    unchanged = inr refl;
  }

  -- The slot `k` is free, the name is new and the content fits.
  accepted :
      (k : ℕ) (e : FileEntry)
      → get_elem? s.fs.header.files k ≡ some e
      → e.used ≡ 0
      → any_holds t s.fs.header.files ≡ false
      → ltb max_file_size (length c) ≡ false
      → create_code s.fs t c ≡ pos 0
      → Leaves (create_code s.fs t c) (create_count s.fs t c) (create_view s.fs t c) s (
        pos 0,
        fs_save_to_disk ports behind
            (with_fs (store_file s.fs k name (length t) content (length c)) s),
      )
  unfolding create_view create_count
  accepted k e at free fresh fits owed =
      let f' = store_file s.fs k name (length t) content (length c) in
      let kept = fs_save_to_disk-KeepsFiles ports behind (with_fs f' s) in
      let small : length c ≤ max_file_size = ground arith in
      record {
        result = sym owed;
        valid =
            FsIsValid-keeps kept (
              store_file-IsValid s.fs k e name t content c v at free named short filled small
                fresh);
        counted =
            ap count_used (ap (λ (h : Header). h.files) kept.header)
            ∙ count_used-store_file s.fs k e name t content c v at free named short filled small
                fresh
            ∙ rw owed (omega arith);
        directory = λ u. rw (owed) (
            view-keeps kept u
            ∙ view-store_file s.fs k e name t content c v at free named short filled small fresh u);
        ready = kept.initialized ∙ unfold store_file in init;
        unchanged = inl (rw owed);
      }

  abbrev Created : Type 0
  Created =
      (r : ℤ × System Device) × (fs_create_file ports behind name content s ≡ some r)
      × Leaves (create_code s.fs t c) (create_count s.fs t c) (create_view s.fs t c) s r

  looked_up :
      (z : ℤ) → find_slot 0 s.fs.header.files t ≡ z → fs_find_file s.fs.header.files name ≡ some z
  looked_up z at = fs_find_file-slot s.fs.header.files name t v.files_valid named ∙ ap some at

  -- The name is taken.
  created_exists :
      (k : ℕ) {old : List ℕ}
      → find_slot 0 s.fs.header.files t ≡ pos k
      → view s.fs t ≡ some old
      → Created
  unfolding fs_create_file create_code
  created_exists k at seen =
      ((negsuc 1, s), ground (arith, looked_up (pos k) at), refused (negsuc 1) (ground arith) refl)

  -- The name is new.
  created_new :
      find_slot 0 s.fs.header.files t ≡ negsuc 0
      → any_holds t s.fs.header.files ≡ false
      → view s.fs t ≡ none
      → Created
  unfolding fs_create_file create_code
  created_new at fresh seen = elim (fs_find_free_slot-cases s.fs.header.files) [
    | inl (full, all) ↦ (
      (negsuc 2, s),
      ground (arith, looked_up (negsuc 0) at),
      refused (negsuc 2) (ground (arith, v.files_size)) refl,
    )
    | inr (k, e, free, stored, unused) ↦
        let room = count_used-lt s.fs.header.files k stored unused in
        elim (Bool-cases (ltb max_file_size (length c))) [
          | inl large ↦ (
            (negsuc 3, s),
            ground (arith, looked_up (negsuc 0) at, strlen-text content c filled),
            refused (negsuc 3) (ground (arith, v.files_size)) refl,
          )
          | inr fits ↦ (
            (
              pos 0,
              fs_save_to_disk ports behind
                  (with_fs (store_file s.fs k name (length t) content (length c)) s),
            ),
            ground (
              arith,
              looked_up (negsuc 0) at,
              strlen-text content c filled,
              strlen-text name t named,
              stored_length-short (length t) short,
            ),
            accepted k e stored unused fresh fits (ground (arith, v.files_size)),
          )
        ]
  ]

  -- On a valid, initialised file system, `fs_create_file` with a terminated name of at most 31
  -- bytes and a terminated content reads no string past its end and returns -2 if the name is
  -- taken, else -3 if all slots are, else -4 if the content exceeds 4096 bytes, and else 0. The
  -- state stays valid; on 0 the directory binds the name to the content and keeps the rest, and
  -- on any other result the whole state is as before.
  pub fs_create_file-Leaves :
      (r : ℤ × System Device) × (fs_create_file ports behind name content s ≡ some r)
      × Leaves (create_code s.fs t c) (create_count s.fs t c) (create_view s.fs t c) s r
  unfolding view
  fs_create_file-Leaves = elim (find_slot-cases 0 s.fs.header.files s.fs.bytes t) [
    | inl (at, fresh, seen) ↦ created_new at fresh seen
    | inr (k, e, at, is) ↦ created_exists (0 + k) at is.content
  ]
