-- ===== src/Filesystem/Refine/Boot.antt =====
-- The file system that `fs_init` sets up when no disk is selected.
use szym_os_kernel.Prelude.{
  ℕ, suc, ◌+◌, ◌≡◌, refl, sym, ap, ◌∙◌, inl, false, none, some, List, [], ◌∷◌, map, arith, length,
  length-set, set,
}
use szym_os_kernel.Prelude.Bytes.{Memory}
use szym_os_kernel.CString.{text_of}
use szym_os_kernel.Ports.{Ports}
use szym_os_kernel.System.{System}
use szym_os_kernel.Filesystem.State.{FileEntry, max_files, max_filename}
use szym_os_kernel.Filesystem.Persist.{empty_entry, reset_fs, disk_available, fs_init}
use szym_os_kernel.Filesystem.Directory.{
  name_text, holds, view, view_files, count_used, FilesAreValid, AreDistinct, FsIsValid,
}
use szym_os_kernel.Filesystem.Refine.Session.{find, Represents}

-- The table as the compiler lays it out: 32 entries with names of 32 bytes.
abbrev pub NamesHaveSize : List FileEntry → Type 0
NamesHaveSize [] = Unit
NamesHaveSize (e ∷ es) = (length e.name ≡ max_filename) × NamesHaveSize es

pub record IsTable (files : List FileEntry) : Type 0 where
  pub files_size : length files ≡ max_files
  pub names_size : NamesHaveSize files

cleared_name : (name : List ℕ) → length name ≡ max_filename → text_of (set name 0 0) ≡ some []
unfolding text_of
cleared_name [] h = absurd (omega arith)
cleared_name (c ∷ name) h = refl

length-empty : (files : List FileEntry) → length (map empty_entry files) ≡ length files
length-empty [] = refl
length-empty (e ∷ es) = ap suc (length-empty es)

empty-valid :
    (i : ℕ) (files : List FileEntry) → NamesHaveSize files → FilesAreValid i (map empty_entry files)
empty-valid i [] h = tt
empty-valid i (e ∷ es) h = (
  record {
    name_size = length-set e.name 0 0 ∙ h.0;
    terminated = unfold name_text in rw (cleared_name e.name h.0);
    size_fits = omega arith;
    placed = inl refl;
  },
  empty-valid (i + 1) es h.1,
)

empty-distinct : (files : List FileEntry) → AreDistinct (map empty_entry files)
empty-distinct [] = tt
empty-distinct (e ∷ es) = (inl refl, empty-distinct es)

empty-count : (files : List FileEntry) → count_used (map empty_entry files) ≡ 0
unfolding count_used
empty-count [] = refl
empty-count (e ∷ es) = omega (arith, empty-count es)

empty-view :
    (bytes : Memory) (files : List FileEntry) (t : List ℕ)
    → view_files bytes (map empty_entry files) t ≡ none
unfolding view_files holds
empty-view bytes [] t = refl
empty-view bytes (e ∷ es) t = empty-view bytes es t

module _ {Device : Type 0} (ports : Ports Device) (behind : List ℕ) (s : System Device)
    (table : IsTable s.fs.header.files) (alone : disk_available s ≡ false) where
  fs-fs_init : (fs_init ports behind s).fs ≡ reset_fs s.fs
  unfolding fs_init disk_available
  fs-fs_init = ground arith

  reset-IsValid : FsIsValid (reset_fs s.fs)
  reset-IsValid = record {
    files_size = length-empty s.fs.header.files ∙ table.files_size;
    files_valid = empty-valid 0 s.fs.header.files table.names_size;
    distinct = empty-distinct s.fs.header.files;
    counted = sym (empty-count s.fs.header.files);
    magic_right = refl;
  }

  -- With no disk selected and a table of 32 entries with names of 32 bytes, whatever they hold,
  -- `fs_init` leaves an initialised file system that is valid and holds no file.
  pub fs_init-Represents : Represents (fs_init ports behind s) []
  unfolding view find
  fs_init-Represents = record {
    valid = rw fs-fs_init reset-IsValid;
    ready = rw fs-fs_init;
    same = λ u. rw fs-fs_init (empty-view (reset_fs s.fs).bytes s.fs.header.files u);
    number = rw fs-fs_init (empty-count s.fs.header.files);
    names_differ = tt;
  }
