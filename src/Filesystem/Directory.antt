-- ===== src/Filesystem/Directory.antt =====
-- What a client sees of the file system: the content under each name. And the invariant of the
-- table of files on which the operations of kernel/filesystem.c rely.
pub mod Find
pub mod Entry
pub mod Store
pub mod Remove
use mathlib.Core.Option
use szym_os_kernel.Prelude.{
  ℕ, zero, suc, ◌+◌, ◌*◌, ◌≤◌, ◌≡◌, ◌⊎◌, Bool, true, false, not, ◌&&◌, ◌||◌, Option, none, some,
  List, [], ◌∷◌, ◌==◌, if◌then◌else◌, length,
}
use szym_os_kernel.Prelude.Bytes.{Memory, slice}
use szym_os_kernel.CString.{text_of, text_eq}
use szym_os_kernel.Filesystem.State.{
  FileEntry, Header, FsState, max_files, max_filename, max_file_size, szymfs_magic,
}

-- The text of an entry's name.
unfoldable pub name_text : FileEntry → List ℕ
name_text e = Option.get_or (text_of e.name) []

-- The entry is in use under the name `t`.
unfoldable pub holds : List ℕ → FileEntry → Bool
holds t e = not (e.used == 0) && text_eq (name_text e) t

unfoldable pub any_holds : List ℕ → List FileEntry → Bool
any_holds t [] = false
any_holds t (e ∷ es) = holds t e || any_holds t es

unfoldable pub view_files : Memory → List FileEntry → List ℕ → Option (List ℕ)
view_files bytes [] t = none
view_files bytes (e ∷ es) t =
    let rest = view_files bytes es t in
    if holds t e then some (slice bytes e.offset e.size) else rest

-- The abstract file system: the content of the file named `t`, if there is one.
unfoldable pub view : FsState → List ℕ → Option (List ℕ)
unfolding view_files
view f t = view_files f.bytes f.header.files t

unfoldable pub count_used : List FileEntry → ℕ
count_used [] = 0
count_used (e ∷ es) = (if e.used == 0 then 0 else 1) + count_used es

-- An entry at index `slot`: its name is terminated, and its content lies in the slot's own part of
-- `fs_data`.
pub record EntryIsValid (slot : ℕ) (e : FileEntry) : Type 0 where
  pub name_size : length e.name ≡ max_filename
  pub terminated : text_of e.name ≡ some (name_text e)
  pub size_fits : e.size ≤ max_file_size
  pub placed : (e.used ≡ 0) ⊎ (e.offset ≡ slot * max_file_size)

abbrev pub FilesAreValid : ℕ → List FileEntry → Type 0
FilesAreValid slot [] = Unit
FilesAreValid slot (e ∷ es) = EntryIsValid slot e × FilesAreValid (slot + 1) es

-- No two used entries share a name.
abbrev pub AreDistinct : List FileEntry → Type 0
AreDistinct [] = Unit
AreDistinct (e ∷ es) = ((e.used ≡ 0) ⊎ (any_holds (name_text e) es ≡ false)) × AreDistinct es

pub record FsIsValid (f : FsState) : Type 0 where
  pub files_size : length f.header.files ≡ max_files
  pub files_valid : FilesAreValid 0 f.header.files
  pub distinct : AreDistinct f.header.files
  pub counted : f.header.file_count ≡ count_used f.header.files
  pub magic_right : f.header.magic ≡ szymfs_magic
