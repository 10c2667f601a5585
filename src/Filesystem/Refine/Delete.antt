-- ===== src/Filesystem/Refine/Delete.antt =====
-- `fs_delete_file` against the directory.
use szym_os_kernel.Prelude.{
  ℕ, ◌+◌, ◌≡◌, refl, ap, ◌∙◌, inl, inr, true, some, none, List, arith, ℤ, pos, negsuc, get_elem?,
}
use szym_os_kernel.CString.{text_of}
use szym_os_kernel.CString.Compare.{text_eq_iff}
use szym_os_kernel.Ports.{Ports}
use szym_os_kernel.System.{System, with_fs}
use szym_os_kernel.Filesystem.State.{Header, FileEntry}
use szym_os_kernel.Filesystem.Files.{fs_find_file, remove_file}
use szym_os_kernel.Filesystem.Persist.{fs_save_to_disk}
use szym_os_kernel.Filesystem.Persist.Frame.{fs_save_to_disk-KeepsFiles}
use szym_os_kernel.Filesystem.Ops.{fs_delete_file}
use szym_os_kernel.Filesystem.Directory.{view, count_used, holds, FsIsValid}
use szym_os_kernel.Filesystem.Directory.Find.{find_slot, find_slot-cases, fs_find_file-slot}
use szym_os_kernel.Filesystem.Refine.{delete_code, delete_count, delete_view, Leaves}
use szym_os_kernel.Filesystem.Refine.Keep.{
  FsIsValid-keeps, view-keeps, remove_file-IsValid, view-remove_file, count_used-remove_file,
}

module _ {Device : Type 0} (ports : Ports Device) (behind name t : List ℕ) (s : System Device)
    (v : FsIsValid s.fs) (init : s.fs.initialized ≡ true) (named : text_of name ≡ some t) where
  looked_up :
      (z : ℤ) → find_slot 0 s.fs.header.files t ≡ z → fs_find_file s.fs.header.files name ≡ some z
  looked_up z at = fs_find_file-slot s.fs.header.files name t v.files_valid named ∙ ap some at

  -- Where there is no file of that name, the directory without it is the directory.
  view-absent : view s.fs t ≡ none → (u : List ℕ) → view s.fs u ≡ delete_view s.fs t u
  unfolding delete_view
  view-absent seen u = ground (arith, text_eq_iff t u)

  absent :
      view s.fs t ≡ none
      → Leaves (delete_code s.fs t) (delete_count s.fs t) (delete_view s.fs t) s (negsuc 0, s)
  unfolding delete_code delete_count
  absent seen = record {
    result = ground arith;
    valid = v;
    counted = ground arith;
    directory = view-absent seen;
    ready = init;
    unchanged = inr refl;
  }

  present :
      (k : ℕ) (e : FileEntry) {old : List ℕ}
      → get_elem? s.fs.header.files k ≡ some e
      → holds t e ≡ true
      → view s.fs t ≡ some old
      → Leaves
          (delete_code s.fs t)
          (delete_count s.fs t)
          (delete_view s.fs t)
          s
          (pos 0, fs_save_to_disk ports behind (with_fs (remove_file s.fs k) s))
  unfolding delete_view delete_code delete_count
  present k e at has seen =
      let kept = fs_save_to_disk-KeepsFiles ports behind (with_fs (remove_file s.fs k) s) in
      record {
        result = ground arith;
        valid = FsIsValid-keeps kept (remove_file-IsValid s.fs k e t v at has);
        counted =
            ap count_used (ap (λ (h : Header). h.files) kept.header)
            ∙ ground (arith, count_used-remove_file s.fs k e t v at has);
        directory = λ u. view-keeps kept u ∙ view-remove_file s.fs k e t v at has u;
        ready = kept.initialized ∙ unfold remove_file in init;
        unchanged = inl (ground arith);
      }

  -- On a valid, initialised file system, `fs_delete_file` with a terminated name reads no
  -- string past its end and returns 0 if there is a file of the name and -1 if not. The state
  -- stays valid, and the directory loses the name and keeps the rest; with -1 the whole state
  -- is as before.
  pub fs_delete_file-Leaves :
      (r : ℤ × System Device) × (fs_delete_file ports behind name s ≡ some r)
      × Leaves (delete_code s.fs t) (delete_count s.fs t) (delete_view s.fs t) s r
  unfolding fs_delete_file view
  fs_delete_file-Leaves = elim (find_slot-cases 0 s.fs.header.files s.fs.bytes t) [
    | inl (at, fresh, seen) ↦ ((negsuc 0, s), ground (arith, looked_up (negsuc 0) at), absent seen)
    | inr (k, e, at, is) ↦ (
      (pos 0, fs_save_to_disk ports behind (with_fs (remove_file s.fs k) s)),
      ground (arith, looked_up (pos (0 + k)) at),
      present k e is.at_index is.has_name is.content,
    )
  ]
