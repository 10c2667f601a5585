-- ===== src/Filesystem/Files.antt =====
-- The parts of kernel/filesystem.c that work on the table of files in memory.
use szym_os_kernel.Prelude.{
  ℕ, ◌+◌, ◌*◌, ◌-◌, Option, some, List, [], ◌∷◌, ℤ, pos, negsuc, eq_ℤ, ◌==◌, leb, if◌then◌else◌,
  ◌>>=◌, u32, sub32, set, take, modify, overwrite,
}
use szym_os_kernel.Prelude.Bytes.{memcpy}
use szym_os_kernel.CString.{strcmp}
use szym_os_kernel.Filesystem.State.{FileEntry, FsState, max_filename, max_file_size}

unfoldable pub find_free_from : ℕ → List FileEntry → ℤ
find_free_from i [] = negsuc 0
find_free_from i (e ∷ es) =
    let rest = find_free_from (i + 1) es in if e.used == 0 then pos i else rest

unfoldable pub fs_find_free_slot : List FileEntry → ℤ
unfolding find_free_from
fs_find_free_slot files = find_free_from 0 files

-- The second test of the `&&` is made on used entries alone.
unfoldable pub find_file_from : ℕ → List FileEntry → List ℕ → Option ℤ
find_file_from i [] name = some (negsuc 0)
find_file_from i (e ∷ es) name =
    let rest = find_file_from (i + 1) es name in
    let compared : Option ℤ =
      strcmp e.name name >>= λ z. if eq_ℤ z (pos 0) then some (pos i) else rest in
    if e.used == 0 then rest else compared

unfoldable pub fs_find_file : List FileEntry → List ℕ → Option ℤ
unfolding find_file_from
fs_find_file files name = find_file_from 0 files name

-- The length under which `fs_create_file` stores a name of `name_len` bytes.
abbrev pub stored_length : ℕ → ℕ
stored_length name_len = if leb max_filename name_len then max_filename - 1 else name_len

-- The name and the properties that `fs_create_file` writes into a slot.
unfoldable pub fill_entry : List ℕ → ℕ → ℕ → ℕ → FileEntry → FileEntry
fill_entry name name_len content_len slot e = record e {
  name = set (overwrite e.name (take name_len name)) name_len 0;
  size = content_len;
  offset = slot * max_file_size;
  used = 1;
}

-- The slot, the content and the count.
unfoldable pub store_file : FsState → ℕ → List ℕ → ℕ → List ℕ → ℕ → FsState
unfolding fill_entry
store_file f slot name name_len content content_len = record f {
  header = record (f.header) {
    file_count = u32 (f.header.file_count + 1);
    files = modify f.header.files slot (fill_entry name name_len content_len slot);
  };
  bytes = memcpy f.bytes (slot * max_file_size) (take content_len content);
}

-- What `fs_delete_file` does to the entry, and to the table.
abbrev pub clear_entry : FileEntry → FileEntry
clear_entry e = record e { used = 0; name = set e.name 0 0 }

unfoldable pub remove_file : FsState → ℕ → FsState
remove_file f slot = record f {
  header = record (f.header) {
    file_count = sub32 f.header.file_count 1;
    files = modify f.header.files slot clear_entry;
  };
}
