-- ===== src/Filesystem/Directory/Remove.antt =====
-- The table of files and the directory after an entry has been taken out of use.
use szym_os_kernel.Prelude.{
  ℕ, zero, suc, ◌+◌, ◌≡◌, refl, ◌∙◌, inl, true, false, none, some, List, [], ◌∷◌, arith,
  if◌then◌else◌, eq_of_some, get_elem?, modify, set, length-set,
}
use szym_os_kernel.Prelude.Bytes.{Memory}
use szym_os_kernel.CString.{text_of, text_eq}
use szym_os_kernel.CString.Compare.{text_eq_iff}
use szym_os_kernel.Filesystem.State.{FileEntry}
use szym_os_kernel.Filesystem.Files.{clear_entry}
use szym_os_kernel.Filesystem.Directory.{
  name_text, holds, any_holds, view_files, count_used, EntryIsValid, FilesAreValid, AreDistinct,
}

-- A name that is absent has no content.
pub view_files-absent :
    (bytes : Memory) (files : List FileEntry) (t : List ℕ)
    → any_holds t files ≡ false
    → view_files bytes files t ≡ none
unfolding view_files any_holds
view_files-absent bytes [] t h = refl
view_files-absent bytes (e ∷ es) t h = ground (arith, view_files-absent bytes es t)

any_holds-at :
    (k : ℕ) (files : List FileEntry) (t : List ℕ) {e : FileEntry}
    → get_elem? files k ≡ some e
    → holds t e ≡ true
    → any_holds t files ≡ true
unfolding any_holds
any_holds-at k [] t at h = cc
any_holds-at zero (x ∷ es) t at h = rw (eq_of_some at, h)
any_holds-at (suc k) (x ∷ es) t at h = ground (arith, any_holds-at k es t at h)

holds-clear_entry : (u : List ℕ) (e : FileEntry) → holds u (clear_entry e) ≡ false
unfolding holds
holds-clear_entry u e = refl

-- Nothing gains a name.
any_holds-remove :
    (k : ℕ) (files : List FileEntry) (u : List ℕ)
    → any_holds u files ≡ false
    → any_holds u (modify files k clear_entry) ≡ false
unfolding any_holds
any_holds-remove k [] u h = refl
any_holds-remove zero (x ∷ es) u h = ground (arith, holds-clear_entry u x)
any_holds-remove (suc k) (x ∷ es) u h = ground (arith, any_holds-remove k es u)

pub AreDistinct-remove :
    (k : ℕ) (files : List FileEntry) → AreDistinct files → AreDistinct (modify files k clear_entry)
AreDistinct-remove k [] d = tt
AreDistinct-remove zero (x ∷ es) d = (inl refl, d.1)
AreDistinct-remove (suc k) (x ∷ es) d =
    (ground (arith, d.0, any_holds-remove k es (name_text x)), AreDistinct-remove k es d.1)

pub count_used-remove :
    (k : ℕ) (files : List FileEntry) (t : List ℕ) {e : FileEntry}
    → get_elem? files k ≡ some e
    → holds t e ≡ true
    → count_used files ≡ count_used (modify files k clear_entry) + 1
unfolding count_used holds
count_used-remove k [] t at h = cc
count_used-remove zero (x ∷ es) t at h = ground arith
count_used-remove (suc k) (x ∷ es) t at h = ground (arith, count_used-remove k es t at h)

text_of-cleared :
    (name : List ℕ) {t : List ℕ} → text_of name ≡ some t → text_of (set name 0 0) ≡ some []
unfolding text_of
text_of-cleared [] h = cc
text_of-cleared (c ∷ name) h = refl

clear_entry-IsValid :
    (slot : ℕ) (e : FileEntry) → EntryIsValid slot e → EntryIsValid slot (clear_entry e)
unfolding name_text
clear_entry-IsValid slot e v = record {
  name_size = length-set e.name 0 0 ∙ v.name_size;
  terminated = rw (text_of-cleared e.name v.terminated);
  size_fits = v.size_fits;
  placed = inl refl;
}

pub FilesAreValid-remove :
    (k i : ℕ) (files : List FileEntry)
    → FilesAreValid i files
    → FilesAreValid i (modify files k clear_entry)
FilesAreValid-remove k i [] v = tt
FilesAreValid-remove zero i (x ∷ es) v = (clear_entry-IsValid i x v.0, v.1)
FilesAreValid-remove (suc k) i (x ∷ es) v = (v.0, FilesAreValid-remove k (i + 1) es v.1)

-- The directory loses the name of the entry, and keeps the rest.
pub view_files-remove :
    (k : ℕ) (files : List FileEntry) (bytes : Memory) (t u : List ℕ) {e : FileEntry}
    → get_elem? files k ≡ some e
    → holds t e ≡ true
    → AreDistinct files
    → view_files bytes (modify files k clear_entry) u
      ≡ (if text_eq t u then none else view_files bytes files u)
unfolding view_files holds
view_files-remove k [] bytes t u at h d = cc
view_files-remove zero (x ∷ es) bytes t u at h d =
    let used : holds t x ≡ true = rw (eq_of_some at) h in
    ground (
      arith,
      d.0,
      text_eq_iff (name_text x) t,
      text_eq_iff (name_text x) u,
      text_eq_iff t u,
      view_files-absent bytes es (name_text x),
    )
view_files-remove (suc k) (x ∷ es) bytes t u at h d = ground (
  arith,
  d.0,
  text_eq_iff (name_text x) t,
  text_eq_iff (name_text x) u,
  text_eq_iff t u,
  any_holds-at k es t at h,
  view_files-remove k es bytes t u at h d.1,
)
