-- ===== src/Filesystem/Directory/Entry.antt =====
-- The entry that `fs_create_file` fills: its name, and its place in a valid table.
use szym_os_kernel.Prelude.{
  ℕ, zero, suc, ◌≤◌, ◌<◌, ◌≡◌, refl, ◌∙◌, inl, inr, some, List, [], ◌∷◌, arith, ◌==◌, Bool-cases,
  length, length-set, length-overwrite, set, take, overwrite,
}
use szym_os_kernel.CString.{text_of, text_eq}
use szym_os_kernel.CString.Compare.{text_of-cons}
use szym_os_kernel.Filesystem.State.{FileEntry, max_filename, max_file_size}
use szym_os_kernel.Filesystem.Files.{fill_entry}
use szym_os_kernel.Filesystem.Directory.{name_text, holds, EntryIsValid}

-- Copying `n` bytes of a name over an old one and terminating them stores the name's first `n` bytes.
text_of-stored :
    (n : ℕ) (old name t : List ℕ)
    → text_of name ≡ some t
    → n ≤ length t
    → n < length old
    → text_of (set (overwrite old (take n name)) n 0) ≡ some (take n t)
unfolding text_of
text_of-stored zero [] name t h p q = absurd (omega arith)
text_of-stored zero (x ∷ old) name t h p q = refl
text_of-stored (suc n) [] name t h p q = absurd (omega arith)
text_of-stored (suc n) (x ∷ old) [] t h p q = cc
text_of-stored (suc n) (x ∷ old) (c ∷ name) t h p q = elim (Bool-cases (c == 0)) [
  | inl e ↦ absurd (ground arith)
  | inr e ↦
      let (u, hu, ht) = text_of-cons c name t h e in
      rw (e, ht) (ground (arith, text_of-stored n old name u hu (ground arith) (omega arith)))
]

module _ (name t : List ℕ) (n content_len slot : ℕ) (e : FileEntry) (named : text_of name ≡ some t)
    (within : n ≤ length t) (short : n < max_filename) (size : length e.name ≡ max_filename) where
  fill_entry-terminated : text_of (fill_entry name n content_len slot e).name ≡ some (take n t)
  unfolding fill_entry
  fill_entry-terminated = text_of-stored n e.name name t named within (omega arith)

  -- The stored name is the first `n` bytes of the given one.
  pub name_text-fill_entry : name_text (fill_entry name n content_len slot e) ≡ take n t
  unfolding name_text
  name_text-fill_entry = rw fill_entry-terminated

  -- A filled entry is valid in its slot if the content fits.
  pub fill_entry-IsValid :
      content_len ≤ max_file_size → EntryIsValid slot (fill_entry name n content_len slot e)
  fill_entry-IsValid fits = record {
    name_size =
        unfold fill_entry in
        length-set (overwrite e.name (take n name)) n 0
        ∙ length-overwrite e.name (take n name)
        ∙ size;
    terminated = rw name_text-fill_entry fill_entry-terminated;
    size_fits = unfold fill_entry in fits;
    placed = unfold fill_entry in inr refl;
  }

  pub holds-fill_entry :
      (u : List ℕ) → holds u (fill_entry name n content_len slot e) ≡ text_eq (take n t) u
  unfolding holds
  holds-fill_entry u = rw name_text-fill_entry (unfold fill_entry in refl)
