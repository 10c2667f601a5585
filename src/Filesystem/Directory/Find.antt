-- ===== src/Filesystem/Directory/Find.antt =====
-- What `fs_find_file` and `fs_find_free_slot` return.
use szym_os_kernel.Prelude.{
  ℕ, zero, suc, eq_of_some, ◌+◌, ◌≡◌, refl, ◌⊎◌, inl, inr, true, false, none, some, List, [], ◌∷◌,
  arith, ◌∙◌, ℤ, pos, negsuc, ◌==◌, if◌then◌else◌, Bool-cases, length, get_elem?,
}
use szym_os_kernel.Prelude.Bytes.{Memory, slice}
use szym_os_kernel.CString.{text_of}
use szym_os_kernel.CString.Compare.{strcmp-text}
use szym_os_kernel.Filesystem.State.{FileEntry}
use szym_os_kernel.Filesystem.Files.{
  find_file_from, fs_find_file, find_free_from, fs_find_free_slot,
}
use szym_os_kernel.Filesystem.Directory.{
  EntryIsValid, name_text, holds, any_holds, view_files, count_used, FilesAreValid,
}

-- The index of the first used entry with the name, counted from `i`, or -1.
unfoldable pub find_slot : ℕ → List FileEntry → List ℕ → ℤ
find_slot i [] t = negsuc 0
find_slot i (e ∷ es) t = let rest = find_slot (i + 1) es t in if holds t e then pos i else rest

find_file_from-slot :
    (i : ℕ) (files : List FileEntry) (buf t : List ℕ)
    → FilesAreValid i files
    → text_of buf ≡ some t
    → find_file_from i files buf ≡ some (find_slot i files t)
unfolding find_file_from find_slot holds
find_file_from-slot i [] buf t v h = refl
find_file_from-slot i (e ∷ es) buf t v h =
    let (z, p, q) = strcmp-text e.name buf (name_text e) t v.0.terminated h in
    ground (arith, find_file_from-slot (i + 1) es buf t v.1 h)

-- In a valid table `fs_find_file` reads no name past its end and returns the first used entry
-- under the name.
pub fs_find_file-slot :
    (files : List FileEntry) (buf t : List ℕ)
    → FilesAreValid 0 files
    → text_of buf ≡ some t
    → fs_find_file files buf ≡ some (find_slot 0 files t)
unfolding fs_find_file
fs_find_file-slot files buf t v h = find_file_from-slot 0 files buf t v h

-- A used entry at index `k` with the name `t`, and the content that the directory shows for it.
pub record IsEntryOf (t : List ℕ) (files : List FileEntry) (bytes : Memory) (k : ℕ) (e : FileEntry)
    : Type 0 where
  pub at_index : get_elem? files k ≡ some e
  pub has_name : holds t e ≡ true
  pub content : view_files bytes files t ≡ some (slice bytes e.offset e.size)

-- No entry has the name, and the directory shows none; or the slot is that of an entry with it.
abbrev pub SlotFound : ℕ → List FileEntry → Memory → List ℕ → Type 0
SlotFound i files bytes t =
    (find_slot i files t ≡ negsuc 0)
      × (any_holds t files ≡ false)
      × (view_files bytes files t ≡ none)
    ⊎ ((k : ℕ) × (e : FileEntry) × (find_slot i files t ≡ pos (i + k))
        × IsEntryOf t files bytes k e)

pub find_slot-cases :
    (i : ℕ) (files : List FileEntry) (bytes : Memory) (t : List ℕ) → SlotFound i files bytes t
unfolding find_slot any_holds view_files
find_slot-cases i [] bytes t = inl (refl, refl, refl)
find_slot-cases i (e ∷ es) bytes t = elim (Bool-cases (holds t e)) [
  | inl h ↦ inr (0, e, ground arith, record { at_index = refl; has_name = h; content = rw h })
  | inr h ↦ elim (find_slot-cases (i + 1) es bytes t) [
    | inl (p, q, r) ↦ inl (rw h p, rw h q, rw h r)
    | inr (k, e', p, r) ↦ inr (
      suc k,
      e',
      rw (h, p) (ground arith),
      record { at_index = r.at_index; has_name = r.has_name; content = rw h r.content },
    )
  ]
]

-- `fs_find_free_slot` returns -1 when every entry is used, and else the index of an unused one.
abbrev pub FreeFound : ℕ → List FileEntry → Type 0
FreeFound i files =
    (find_free_from i files ≡ negsuc 0) × (count_used files ≡ length files)
    ⊎ ((k : ℕ) × (e : FileEntry) × (find_free_from i files ≡ pos (i + k))
        × (get_elem? files k ≡ some e)
        × (e.used ≡ 0))

find_free_from-cases : (i : ℕ) (files : List FileEntry) → FreeFound i files
unfolding find_free_from count_used
find_free_from-cases i [] = inl (refl, refl)
find_free_from-cases i (e ∷ es) = elim (Bool-cases (e.used == 0)) [
  | inl h ↦ inr (0, e, ground arith, refl, ground arith)
  | inr h ↦ elim (find_free_from-cases (i + 1) es) [
    | inl (p, q) ↦ inl (rw h p, ground arith)
    | inr (k, e', p, q, r) ↦ inr (suc k, e', rw (h, p) (ground arith), q, r)
  ]
]

-- `fs_find_free_slot` returns -1 when all entries are in use, and else the index of an unused entry.
pub fs_find_free_slot-cases :
    (files : List FileEntry)
    → (fs_find_free_slot files ≡ negsuc 0) × (count_used files ≡ length files)
      ⊎ ((k : ℕ) × (e : FileEntry) × (fs_find_free_slot files ≡ pos k)
          × (get_elem? files k ≡ some e)
          × (e.used ≡ 0))
unfolding fs_find_free_slot
fs_find_free_slot-cases files = elim (find_free_from-cases 0 files) [
  | inl h ↦ inl h
  | inr (k, e, p, q, r) ↦ inr (k, e, p ∙ ground arith, q, r)
]

pub EntryIsValid-at :
    (i k : ℕ) (files : List FileEntry) {e : FileEntry}
    → FilesAreValid i files
    → get_elem? files k ≡ some e
    → EntryIsValid (i + k) e
EntryIsValid-at i k [] v at = cc
EntryIsValid-at i zero (x ∷ es) v at =
    let same : i + 0 ≡ i = omega arith in rw (same, ← eq_of_some at) v.0
EntryIsValid-at i (suc k) (x ∷ es) v at =
    let same : i + suc k ≡ i + 1 + k = omega arith in rw same (EntryIsValid-at (i + 1) k es v.1 at)
