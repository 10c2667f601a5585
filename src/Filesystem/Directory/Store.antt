-- ===== src/Filesystem/Directory/Store.antt =====
-- The table of files and the directory after an unused entry has been filled.
use szym_os_kernel.Prelude.{
  ℕ, zero, suc, ◌+◌, ◌*◌, ◌≤◌, ◌<◌, ◌≡◌, refl, ◌⊎◌, inr, false, ◌||◌, some, List, [], ◌∷◌, arith,
  if◌then◌else◌, eq_of_some, length, get_elem?, modify,
}
use szym_os_kernel.Prelude.Bytes.{Memory, memcpy, slice-memcpy, slice-memcpy_out}
use szym_os_kernel.CString.{text_eq}
use szym_os_kernel.CString.Compare.{text_eq_iff, text_eq_comm}
use szym_os_kernel.Filesystem.State.{FileEntry, max_file_size}
use szym_os_kernel.Filesystem.Directory.{
  name_text, holds, any_holds, view_files, count_used, EntryIsValid, FilesAreValid, AreDistinct,
}

-- Writing within one slot changes no file of the others.
view_files-memcpy :
    (bytes : Memory) (slot j : ℕ) (content : List ℕ) (es : List FileEntry) (u : List ℕ)
    → FilesAreValid j es
    → length content ≤ max_file_size
    → (slot < j) ⊎ (j + length es ≤ slot)
    → view_files (memcpy bytes (slot * max_file_size) content) es u ≡ view_files bytes es u
unfolding view_files holds
view_files-memcpy bytes slot j content [] u v h p = refl
view_files-memcpy bytes slot j content (e ∷ es) u v h p = ground (
  arith,
  v.0.placed,
  v.0.size_fits,
  slice-memcpy_out bytes (slot * max_file_size) content e.offset e.size,
  view_files-memcpy bytes slot (j + 1) content es u v.1 h,
)

-- What filling an unused entry `e` of the slot with the name `t` and the content must do.
pub record Fills (slot : ℕ) (t content : List ℕ) (e e' : FileEntry) : Type 0 where
  pub was_unused : e.used ≡ 0
  pub now_used : e'.used ≡ 1
  pub valid : EntryIsValid slot e'
  pub name_is : name_text e' ≡ t
  pub size_is : e'.size ≡ length content
  pub offset_is : e'.offset ≡ slot * max_file_size

module _ (f : FileEntry → FileEntry) (slot : ℕ) (t content : List ℕ) (e : FileEntry)
    (fills : Fills slot t content e (f e)) where
  holds-filled : (u : List ℕ) → holds u (f e) ≡ text_eq t u
  unfolding holds
  holds-filled u = ground (arith, fills.now_used, fills.name_is)

  unused-holds : (u : List ℕ) → holds u e ≡ false
  unfolding holds
  unused-holds u = ground (arith, fills.was_unused)

  pub any_holds-store :
      (k : ℕ) (files : List FileEntry) (u : List ℕ)
      → get_elem? files k ≡ some e
      → any_holds u (modify files k f) ≡ (text_eq t u || any_holds u files)
  unfolding any_holds
  any_holds-store k [] u at = cc
  any_holds-store zero (x ∷ es) u at = rw (eq_of_some at, holds-filled u, unused-holds u)
  any_holds-store (suc k) (x ∷ es) u at = ground (arith, any_holds-store k es u at)

  pub count_used-store :
      (k : ℕ) (files : List FileEntry)
      → get_elem? files k ≡ some e
      → count_used (modify files k f) ≡ count_used files + 1
  unfolding count_used
  count_used-store k [] at = cc
  count_used-store zero (x ∷ es) at = ground (arith, fills.was_unused, fills.now_used)
  count_used-store (suc k) (x ∷ es) at = ground (arith, count_used-store k es at)

  pub FilesAreValid-store :
      (k i : ℕ) (files : List FileEntry)
      → get_elem? files k ≡ some e
      → slot ≡ i + k
      → FilesAreValid i files
      → FilesAreValid i (modify files k f)
  FilesAreValid-store k i [] at p v = cc
  FilesAreValid-store zero i (x ∷ es) at p v =
      (rw (eq_of_some at, ← valid_slot i p) fills.valid, v.1)
    where
      valid_slot : (j : ℕ) → slot ≡ j + 0 → slot ≡ j
      valid_slot j q = omega arith
  FilesAreValid-store (suc k) i (x ∷ es) at p v =
      (v.0, FilesAreValid-store k (i + 1) es at (omega arith) v.1)

  pub AreDistinct-store :
      (k : ℕ) (files : List FileEntry)
      → get_elem? files k ≡ some e
      → any_holds t files ≡ false
      → AreDistinct files
      → AreDistinct (modify files k f)
  unfolding any_holds holds
  AreDistinct-store k [] at fresh d = cc
  AreDistinct-store zero (x ∷ es) at fresh d =
      (inr (rw (eq_of_some at, fills.name_is) (ground arith)), d.1)
  AreDistinct-store (suc k) (x ∷ es) at fresh d = (
    ground (arith, d.0, any_holds-store k es (name_text x) at, text_eq_comm t (name_text x)),
    AreDistinct-store k es at (ground arith) d.1,
  )

  -- The directory gains the content under the name `t`, and keeps the rest.
  pub view_files-store :
      (k i : ℕ) (files : List FileEntry) (bytes : Memory) (u : List ℕ)
      → get_elem? files k ≡ some e
      → slot ≡ i + k
      → length content ≤ max_file_size
      → FilesAreValid i files
      → any_holds t files ≡ false
      → view_files (memcpy bytes (slot * max_file_size) content) (modify files k f) u
        ≡ (if text_eq t u then some content else view_files bytes files u)
  unfolding view_files any_holds
  view_files-store k i [] bytes u at p small v fresh = cc
  view_files-store zero i (x ∷ es) bytes u at p small v fresh =
      rw (eq_of_some at, holds-filled u, unused-holds u, fills.size_is, fills.offset_is)
        (ground (
          arith,
          slice-memcpy bytes (slot * max_file_size) content,
          view_files-memcpy bytes slot (i + 1) content es u v.1 small,
        ))
  view_files-store (suc k) i (x ∷ es) bytes u at p small v fresh = ground (
    arith,
    text_eq_iff t u,
    view_files-memcpy bytes slot i content (x ∷ []) u (v.0, tt) small,
    view_files-store k (i + 1) es bytes u at (omega arith) small v.1,
  )
