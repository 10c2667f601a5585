-- ===== src/Filesystem/Refine/Listing.antt =====
-- `fs_list_files` against the table of files.
use szym_os_kernel.Prelude.{
  ℕ, ◌+◌, ◌-◌, ◌≡◌, refl, true, some, List, [], ◌∷◌, ◌++◌, arith, ◌==◌, if◌then◌else◌, length,
  replicate,
}
use szym_os_kernel.CString.Compare.{strlen-text, take-text}
use szym_os_kernel.Console.{Call, uint, putchar, writestring, write, format}
use szym_os_kernel.System.{System, say}
use szym_os_kernel.Filesystem.State.{FileEntry, max_filename}
use szym_os_kernel.Filesystem.Ops.{list_entry, list_entries, list_heading, fs_list_files}
use szym_os_kernel.Filesystem.Directory.{
  name_text, count_used, FilesAreValid, FsIsValid, EntryIsValid,
}

-- The line of one file: its name, filled up to 32 columns, and its size.
unfoldable pub entry_line : FileEntry → List Call
entry_line e =
    writestring (name_text e)
    ∷ (replicate (max_filename - length (name_text e)) (putchar b' ')
        ++ format "  %d bytes\n" (uint e.size ∷ []) ∷ [])

-- The lines of the files in use, in the order of their slots.
unfoldable pub file_lines : List FileEntry → List Call
file_lines [] = []
file_lines (e ∷ es) = if e.used == 0 then file_lines es else entry_line e ++ file_lines es

-- What a listing shows.
unfoldable pub listing : List FileEntry → List Call
listing files =
    if count_used files == 0
    then write "No files found.\n" ∷ []
    else list_heading (count_used files) ++ file_lines files

list_entry-line :
    (slot : ℕ) (e : FileEntry) → EntryIsValid slot e → list_entry e ≡ some (entry_line e)
unfolding list_entry entry_line
list_entry-line slot e v =
    rw (strlen-text e.name (name_text e) v.terminated, take-text e.name (name_text e) v.terminated)

list_entries-lines :
    (slot : ℕ) (files : List FileEntry)
    → FilesAreValid slot files
    → list_entries files ≡ some (file_lines files)
unfolding list_entries file_lines
list_entries-lines slot [] v = refl
list_entries-lines slot (e ∷ es) v =
    ground (arith, list_entry-line slot e v.0, list_entries-lines (slot + 1) es v.1)

-- On a valid, initialised file system `fs_list_files` reads no name past its end and prints the number
-- of the files in use and a line for each of them in the order of the slots, or that there is none;
-- nothing else of the state changes.
pub fs_list_files-listing :
    {Device : Type 0} (s : System Device)
    → FsIsValid s.fs
    → s.fs.initialized ≡ true
    → fs_list_files s ≡ some (say (listing s.fs.header.files) s)
unfolding fs_list_files listing
fs_list_files-listing s v init =
    rw (init, v.counted, list_entries-lines 0 s.fs.header.files v.files_valid) (ground arith)
