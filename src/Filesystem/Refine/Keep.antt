-- ===== src/Filesystem/Refine/Keep.antt =====
-- The invariant and the directory of the state after `store_file`, after `remove_file`, and after
-- saving.
use szym_os_kernel.Prelude.{
  ℕ, ◌+◌, zero, suc, ◌≤◌, ◌<◌, ◌≡◌, refl, ◌∙◌, true, false, none, some, List, [], ◌∷◌, arith,
  if◌then◌else◌, length, length-modify, get_elem?, take-length,
}
use szym_os_kernel.CString.{text_of, text_eq}
use szym_os_kernel.CString.Compare.{take-text}
use szym_os_kernel.System.{System}
use szym_os_kernel.Filesystem.State.{FileEntry, FsState, max_filename, max_file_size}
use szym_os_kernel.Filesystem.Files.{
  fill_entry, store_file, remove_file, clear_entry, stored_length,
}
use szym_os_kernel.Filesystem.Directory.{view, any_holds, count_used, FsIsValid}
use szym_os_kernel.Filesystem.Directory.Find.{EntryIsValid-at}
use szym_os_kernel.Filesystem.Directory.Entry.{name_text-fill_entry, fill_entry-IsValid}
use szym_os_kernel.Filesystem.Directory.Store.{
  Fills, view_files-store, count_used-store, FilesAreValid-store, AreDistinct-store,
}
use szym_os_kernel.Filesystem.Directory.Remove.{
  view_files-remove, count_used-remove, FilesAreValid-remove, AreDistinct-remove,
}
use szym_os_kernel.Filesystem.Directory.{holds}
use szym_os_kernel.Filesystem.Persist.Frame.{KeepsFiles}

module _ {Device : Type 0} {s s' : System Device} (k : KeepsFiles s s') where
  pub FsIsValid-keeps : FsIsValid s.fs → FsIsValid s'.fs
  FsIsValid-keeps v = record {
    files_size = rw k.header v.files_size;
    files_valid = rw k.header v.files_valid;
    distinct = rw k.header v.distinct;
    counted = rw k.header v.counted;
    magic_right = rw k.header v.magic_right;
  }

  pub view-keeps : (u : List ℕ) → view s'.fs u ≡ view s.fs u
  unfolding view
  view-keeps u = rw (k.header, k.bytes)

pub count_used-le : (files : List FileEntry) → count_used files ≤ length files
unfolding count_used
count_used-le [] = omega arith
count_used-le (e ∷ es) = ground (arith, count_used-le es)

pub count_used-lt :
    (files : List FileEntry) (k : ℕ) {e : FileEntry}
    → get_elem? files k ≡ some e
    → e.used ≡ 0
    → count_used files < length files
unfolding count_used
count_used-lt [] k at h = cc
count_used-lt (x ∷ es) zero at h = ground (arith, count_used-le es)
count_used-lt (x ∷ es) (suc k) at h = ground (arith, count_used-lt es k at h)

pub stored_length-short : (n : ℕ) → n < max_filename → stored_length n ≡ n
stored_length-short n h = ground arith

module _ (f : FsState) (slot : ℕ) (e : FileEntry) (name t content c : List ℕ) (v : FsIsValid f)
    (at : get_elem? f.header.files slot ≡ some e) (free : e.used ≡ 0)
    (named : text_of name ≡ some t) (short : length t < max_filename)
    (filled : text_of content ≡ some c) (small : length c ≤ max_file_size)
    (fresh : any_holds t f.header.files ≡ false) where
  abbrev pub stored : FsState
  stored = store_file f slot name (length t) content (length c)

  name_size : length e.name ≡ max_filename
  name_size = (EntryIsValid-at 0 slot f.header.files v.files_valid at).name_size

  fills : Fills slot t c e (fill_entry name (length t) (length c) slot e)
  fills = record {
    was_unused = free;
    now_used = unfold fill_entry in refl;
    valid =
        fill_entry-IsValid name t (length t) (length c) slot e named (omega arith) short name_size
          small;
    name_is =
        name_text-fill_entry name t (length t) (length c) slot e named (omega arith) short name_size
        ∙ take-length t;
    size_is = unfold fill_entry in refl;
    offset_is = unfold fill_entry in refl;
  }

  -- Storing a file keeps the invariant.
  pub store_file-IsValid : FsIsValid stored
  unfolding store_file
  store_file-IsValid =
      let g = fill_entry name (length t) (length c) slot in
      let files = f.header.files in
      record {
        files_size = length-modify files slot g ∙ v.files_size;
        files_valid =
            FilesAreValid-store g slot t c e fills slot 0 files at (omega arith) v.files_valid;
        distinct = AreDistinct-store g slot t c e fills slot files at fresh v.distinct;
        counted = omega (
          arith,
          v.counted,
          v.files_size,
          count_used-le files,
          count_used-store g slot t c e fills slot files at,
        );
        magic_right = v.magic_right;
      }

  pub count_used-store_file : count_used stored.header.files ≡ count_used f.header.files + 1
  unfolding store_file
  count_used-store_file =
      count_used-store (fill_entry name (length t) (length c) slot) slot t c e fills slot
        f.header.files at

  -- The directory then shows the content under the name, and the rest as before.
  pub view-store_file : (u : List ℕ) → view stored u ≡ (if text_eq t u then some c else view f u)
  unfolding store_file view
  view-store_file u =
      let g = fill_entry name (length t) (length c) slot in
      rw (take-text content c filled) (
        view_files-store g slot t c e fills slot 0 f.header.files f.bytes u at (omega arith) small
          v.files_valid fresh)

module _ (f : FsState) (slot : ℕ) (e : FileEntry) (t : List ℕ) (v : FsIsValid f)
    (at : get_elem? f.header.files slot ≡ some e) (named : holds t e ≡ true) where
  pub remove_file-IsValid : FsIsValid (remove_file f slot)
  unfolding remove_file
  remove_file-IsValid = record {
    files_size = length-modify f.header.files slot clear_entry ∙ v.files_size;
    files_valid = FilesAreValid-remove slot 0 f.header.files v.files_valid;
    distinct = AreDistinct-remove slot f.header.files v.distinct;
    counted = omega (
      arith,
      v.counted,
      v.files_size,
      count_used-le f.header.files,
      count_used-remove slot f.header.files t at named,
    );
    magic_right = v.magic_right;
  }

  pub count_used-remove_file :
      count_used f.header.files ≡ count_used (remove_file f slot).header.files + 1
  unfolding remove_file
  count_used-remove_file = count_used-remove slot f.header.files t at named

  pub view-remove_file :
      (u : List ℕ) → view (remove_file f slot) u ≡ (if text_eq t u then none else view f u)
  unfolding view remove_file
  view-remove_file u = view_files-remove slot f.header.files f.bytes t u at named v.distinct
