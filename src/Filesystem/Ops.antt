-- ===== src/Filesystem/Ops.antt =====
-- The operations of kernel/filesystem.c on files. A result outside `some` is a read past the end of
-- a string or of `fs_data`.
use szym_os_kernel.Prelude.{
  ℕ, ◌+◌, ◌-◌, Bool, true, not, Option, none, some, List, [], ◌∷◌, ◌++◌, ℤ, pos, negsuc, ltb, ltb_ℤ,
  leb, ◌==◌, if◌then◌else◌, ◌>>=◌, sub32, get_elem?, replicate, take,
}
use szym_os_kernel.Prelude.Bytes.{slice}
use szym_os_kernel.CString.{strlen}
use szym_os_kernel.Ports.{Ports}
use szym_os_kernel.Console.{
  Call, uint, putchar, writestring, foreground, write, format, light_cyan, yellow, white,
}
use szym_os_kernel.System.{System, say, with_fs}
use szym_os_kernel.Filesystem.State.{
  FileEntry, FsState, max_files, max_filename, max_file_size, data_size,
}
use szym_os_kernel.Filesystem.Files.{
  fs_find_free_slot, fs_find_file, stored_length, store_file, remove_file,
}
use szym_os_kernel.Filesystem.Persist.{fs_save_to_disk}

-- `slot >= 0`
abbrev pub found : ℤ → Bool
found slot = not (ltb_ℤ slot (pos 0))

module _ {Device : Type 0} (ports : Ports Device) (behind : List ℕ) where
  -- `fs_create_file` once a slot is chosen.
  unfoldable pub create_in : ℤ → List ℕ → List ℕ → System Device → Option (ℤ × System Device)
  create_in (negsuc _) name content s = some (negsuc 2, s)
  create_in (pos slot) name content s = strlen content >>= λ content_len.
      if ltb max_file_size content_len
      then some (negsuc 3, s)
      else (strlen name >>= λ name_len. some (
        pos 0,
        fs_save_to_disk ports behind
            (with_fs (store_file s.fs slot name (stored_length name_len) content content_len) s),
      ))

  unfoldable pub fs_create_file : List ℕ → List ℕ → System Device → Option (ℤ × System Device)
  unfolding create_in
  fs_create_file name content s =
      if not s.fs.initialized
      then some (negsuc 0, s)
      else (fs_find_file s.fs.header.files name >>= λ slot.
          if found slot
          then some (negsuc 1, s)
          else create_in (fs_find_free_slot s.fs.header.files) name content s)

  -- `fs_delete_file` on the entry that it found.
  unfoldable pub delete_in : ℤ → System Device → ℤ × System Device
  delete_in (negsuc _) s = (negsuc 0, s)
  delete_in (pos slot) s = (pos 0, fs_save_to_disk ports behind (with_fs (remove_file s.fs slot) s))

  unfoldable pub fs_delete_file : List ℕ → System Device → Option (ℤ × System Device)
  unfolding delete_in
  fs_delete_file name s =
      if not s.fs.initialized
      then some (negsuc 0, s)
      else (fs_find_file s.fs.header.files name >>= λ slot. some (delete_in slot s))

-- The bytes that `fs_read_file` copies: a read past the end of `fs_data` is `none`.
abbrev pub load_bytes : FsState → ℕ → ℕ → Option (List ℕ)
load_bytes f offset size =
    if leb (offset + size) data_size then some (slice f.bytes offset size) else none

-- `size` cut to what the caller's buffer holds: `max_size - 1` in `uint32_t`.
abbrev pub read_size : ℕ → ℕ → ℕ
read_size size max_size = if ltb (sub32 max_size 1) size then sub32 max_size 1 else size

unfoldable pub read_in : ℤ → ℕ → FsState → Option (ℤ × List ℕ)
read_in (negsuc _) max_size f = some (negsuc 0, [])
read_in (pos slot) max_size f = get_elem? f.header.files slot >>= λ e.
    load_bytes f e.offset (read_size e.size max_size) >>= λ bytes.
    some (pos (read_size e.size max_size), bytes ++ 0 ∷ [])

-- The result, and the bytes that are written to the caller's buffer, terminator included.
unfoldable pub fs_read_file : List ℕ → ℕ → FsState → Option (ℤ × List ℕ)
unfolding read_in
fs_read_file name max_size f =
    if not f.initialized
    then some (negsuc 0, [])
    else (fs_find_file f.header.files name >>= λ slot. read_in slot max_size f)

unfoldable pub fs_file_exists : List ℕ → FsState → Option Bool
fs_file_exists name f = fs_find_file f.header.files name >>= λ slot. some (found slot)

-- A line of the listing: the name, spaces up to column 32, the size.
unfoldable pub list_entry : FileEntry → Option (List Call)
unfolding replicate
list_entry e = strlen e.name >>= λ name_len. some (
    writestring (take name_len e.name)
    ∷ (replicate (max_filename - name_len) (putchar b' ')
        ++ format "  %d bytes\n" (uint e.size ∷ []) ∷ []))

unfoldable pub list_entries : List FileEntry → Option (List Call)
unfolding list_entry
list_entries [] = some []
list_entries (e ∷ es) = list_entries es >>= λ rest.
    if e.used == 0 then some rest else (list_entry e >>= λ line. some (line ++ rest))

-- What stands above the listing.
abbrev pub list_heading : ℕ → List Call
list_heading count =
    foreground light_cyan
    ∷ write "=== SzymFS File List ===\n"
    ∷ foreground white
    ∷ format "Total files: %d / %d\n" (uint count ∷ uint max_files ∷ [])
    ∷ foreground yellow
    ∷ write "NAME                              SIZE\n"
    ∷ write "------------------------------------\n"
    ∷ foreground white
    ∷ []

unfoldable pub fs_list_files : {Device : Type 0} → System Device → Option (System Device)
unfolding list_entries
fs_list_files s =
    if not s.fs.initialized
    then some (say (write "Filesystem not initialized!\n" ∷ []) s)
    else if s.fs.header.file_count == 0
    then some (say (write "No files found.\n" ∷ []) s)
    else (list_entries s.fs.header.files >>= λ lines.
        some (say (list_heading s.fs.header.file_count ++ lines) s))

unfoldable pub fs_set_drive_info : {Device : Type 0} → ℕ → ℕ → System Device → System Device
fs_set_drive_info io_base drive_num s =
    say
      (format "[DEBUG] fs_set_drive_info: io_base=0x%x, drive=%d\n"
          (uint io_base ∷ uint drive_num ∷ [])
        ∷ [])
      (with_fs
        (record (s.fs) { drive_io_base = io_base; drive_num = drive_num; drive_selected = true }) s)
