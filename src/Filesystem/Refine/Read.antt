-- ===== src/Filesystem/Refine/Read.antt =====
-- `fs_read_file` and `fs_file_exists` against the directory.
use szym_os_kernel.Prelude.{
  ℕ, ◌+◌, ◌*◌, ◌≤◌, ◌<◌, ◌≡◌, ap, ◌∙◌, inl, inr, true, some, List, arith, ℤ, pos, negsuc, get_elem?,
  get_elem?-lt,
}
use szym_os_kernel.Prelude.Bytes.{slice, length-slice, take-slice}
use szym_os_kernel.CString.{text_of}
use szym_os_kernel.Filesystem.State.{FileEntry, FsState, max_file_size, data_size}
use szym_os_kernel.Filesystem.Files.{fs_find_file}
use szym_os_kernel.Filesystem.Ops.{fs_read_file, fs_file_exists, read_size, read_in}
use szym_os_kernel.Filesystem.Directory.{view, holds, FsIsValid, EntryIsValid}
use szym_os_kernel.Filesystem.Directory.Find.{
  find_slot, find_slot-cases, fs_find_file-slot, EntryIsValid-at,
}
use szym_os_kernel.Filesystem.Refine.{read_reply, is_file}

-- A used entry's content lies in its slot.
used-placed :
    (t : List ℕ) (slot : ℕ) (e : FileEntry)
    → EntryIsValid slot e
    → holds t e ≡ true
    → e.offset ≡ slot * max_file_size
unfolding holds
used-placed t slot e v h = ground (arith, v.placed)

module _ (f : FsState) (v : FsIsValid f) (init : f.initialized ≡ true) (name t : List ℕ)
    (named : text_of name ≡ some t) where
  looked_up : (z : ℤ) → find_slot 0 f.header.files t ≡ z → fs_find_file f.header.files name ≡ some z
  looked_up z at = fs_find_file-slot f.header.files name t v.files_valid named ∙ ap some at

  -- What is read of a used entry lies in `fs_data`.
  in_bounds :
      (k : ℕ) (e : FileEntry)
      → get_elem? f.header.files k ≡ some e
      → holds t e ≡ true
      → e.offset + e.size ≤ data_size
  in_bounds k e at has = omega (
    arith,
    used-placed t (0 + k) e (EntryIsValid-at 0 k f.header.files v.files_valid at) has,
    (EntryIsValid-at 0 k f.header.files v.files_valid at).size_fits,
    get_elem?-lt f.header.files k at,
    v.files_size,
  )

  read_entry :
      (max_size k : ℕ) (e : FileEntry)
      → 0 < max_size
      → max_size < 4294967296
      → get_elem? f.header.files k ≡ some e
      → holds t e ≡ true
      → read_in (pos k) max_size f
        ≡ some (read_reply (some (slice f.bytes e.offset e.size)) max_size)
  unfolding read_in read_reply
  read_entry max_size k e low high at has = ground (
    arith,
    in_bounds k e at has,
    length-slice f.bytes e.offset e.size,
    take-slice f.bytes e.offset e.size (read_size e.size max_size),
  )

  -- On a valid, initialised file system, with a terminated name and for a buffer of 1 to 2^32 -
  -- 1 bytes, `fs_read_file` reads nothing out of range. It returns -1 and writes nothing if
  -- there is no file of the name; else it writes the content, cut to one byte less than the
  -- buffer, and a terminator, and returns the number of content bytes.
  pub fs_read_file-view :
      (max_size : ℕ)
      → 0 < max_size
      → max_size < 4294967296
      → fs_read_file name max_size f ≡ some (read_reply (view f t) max_size)
  unfolding fs_read_file view read_reply
  fs_read_file-view max_size low high = elim (find_slot-cases 0 f.header.files f.bytes t) [
    | inl (at, fresh, seen) ↦ ground (arith, looked_up (negsuc 0) at)
    | inr (k, e, at, is) ↦ ground (
      arith,
      looked_up (pos (0 + k)) at,
      is.content,
      read_entry max_size k e low high is.at_index is.has_name,
    )
  ]

  -- On a valid, initialised file system and for a terminated name, `fs_file_exists` reads no
  -- string past its end and says whether the directory shows a file of the name.
  pub fs_file_exists-view : fs_file_exists name f ≡ some (is_file (view f t))
  unfolding fs_file_exists is_file view
  fs_file_exists-view = elim (find_slot-cases 0 f.header.files f.bytes t) [
    | inl (at, fresh, seen) ↦ ground (arith, looked_up (negsuc 0) at)
    | inr (k, e, at, is) ↦ ground (arith, looked_up (pos (0 + k)) at, is.content)
  ]
