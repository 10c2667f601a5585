-- ===== src/Filesystem/Persist/Bytes.antt =====
-- The table of files as bytes: entries that fit their C types and hold bytes, and what
-- kernel/filesystem.c does to them.
use szym_os_kernel.Prelude.{
  ℕ, zero, suc, ◌*◌, ◌-◌, ◌<◌, ◌≤◌, ◌≡◌, ◌∙◌, arith, List, [], ◌∷◌, ◌++◌, length, set, take, modify,
  overwrite, length-set, length-overwrite, length-modify,
}
use szym_os_kernel.Prelude.Index.{
  AreBytes, get_or-append_lem, get_or-overwrite_lem, get_or-take_lem, memcpy_lem,
}
use szym_os_kernel.Filesystem.State.{FileEntry, Header, FsState, max_files, max_file_size}
use szym_os_kernel.Filesystem.Files.{fill_entry, clear_entry, store_file, remove_file}
use szym_os_kernel.Filesystem.Layout.{le32, encode_entry, encode_entries, encode_header}
use szym_os_kernel.Filesystem.Layout.RoundTrip.{EntryFits, AllFit, HeaderFits}

AreBytes-append : (xs ys : List ℕ) → AreBytes xs → AreBytes ys → AreBytes (xs ++ ys)
AreBytes-append xs ys p q j = ground (arith, get_or-append_lem xs ys j, p j, q (j - length xs))

AreBytes-cons : (x : ℕ) (xs : List ℕ) → x < 256 → AreBytes xs → AreBytes (x ∷ xs)
AreBytes-cons x xs p q zero = p
AreBytes-cons x xs p q (suc j) = q j

AreBytes-set : (xs : List ℕ) (i v : ℕ) → v < 256 → AreBytes xs → AreBytes (set xs i v)
AreBytes-set [] i v h p j = p j
AreBytes-set (x ∷ xs) zero v h p zero = h
AreBytes-set (x ∷ xs) zero v h p (suc j) = p (suc j)
AreBytes-set (x ∷ xs) (suc i) v h p zero = p zero
AreBytes-set (x ∷ xs) (suc i) v h p (suc j) = AreBytes-set xs i v h (λ k. p (suc k)) j

AreBytes-overwrite : (xs ys : List ℕ) → AreBytes xs → AreBytes ys → AreBytes (overwrite xs ys)
AreBytes-overwrite xs ys p q j = ground (arith, get_or-overwrite_lem xs ys j, p j, q j)

AreBytes-take : (n : ℕ) (xs : List ℕ) → AreBytes xs → AreBytes (take n xs)
AreBytes-take n xs p j = ground (arith, get_or-take_lem n j xs, p j)

AreBytes-le32 : (n : ℕ) (rest : List ℕ) → AreBytes rest → AreBytes (le32 n ++ rest)
unfolding le32
AreBytes-le32 n rest p zero = omega arith
AreBytes-le32 n rest p (suc zero) = omega arith
AreBytes-le32 n rest p (suc (suc zero)) = omega arith
AreBytes-le32 n rest p (suc (suc (suc zero))) = omega arith
AreBytes-le32 n rest p (suc (suc (suc (suc j)))) = p j

-- An entry that fits, of bytes.
pub record EntryIsStored (e : FileEntry) : Type 0 where
  pub fits : EntryFits e
  pub name_bytes : AreBytes e.name
  pub padding_bytes : AreBytes e.padding

abbrev pub AllStored : List FileEntry → Type 0
AllStored [] = Unit
AllStored (e ∷ es) = EntryIsStored e × AllStored es

pub record HeaderIsStored (h : Header) : Type 0 where
  pub magic_fits : h.magic < 4294967296
  pub count_fits : h.file_count < 4294967296
  pub files_size : length h.files ≡ max_files
  pub entries : AllStored h.files

AllStored-AllFit : (files : List FileEntry) → AllStored files → AllFit files
AllStored-AllFit [] h = tt
AllStored-AllFit (e ∷ es) h = (h.0.fits, AllStored-AllFit es h.1)

pub HeaderIsStored-Fits : (h : Header) → HeaderIsStored h → HeaderFits h
HeaderIsStored-Fits h s = record {
  magic_fits = s.magic_fits;
  count_fits = s.count_fits;
  files_size = s.files_size;
  files_fit = AllStored-AllFit h.files s.entries;
}

AllStored-encode : (files : List FileEntry) → AllStored files → AreBytes (encode_entries files)
unfolding encode_entries encode_entry
AllStored-encode [] h = λ j. omega arith
AllStored-encode (e ∷ es) h =
    AreBytes-append (encode_entry e) (encode_entries es)
      (AreBytes-append e.name _ h.0.name_bytes (
        AreBytes-le32 e.size _ (
          AreBytes-le32 e.offset _
            (AreBytes-cons e.used e.padding h.0.fits.used_fits h.0.padding_bytes))))
      (AllStored-encode es h.1)

-- The bytes of the header and of the memory behind it.
pub encode_header-AreBytes :
    (h : Header) (behind : List ℕ)
    → HeaderIsStored h
    → AreBytes behind
    → AreBytes (encode_header h ++ behind)
unfolding encode_header
encode_header-AreBytes h behind s p =
    AreBytes-append (encode_header h) behind
      (AreBytes-le32 h.magic _ (AreBytes-le32 h.file_count _ (AllStored-encode h.files s.entries)))
      p

AllStored-modify :
    (files : List FileEntry) (slot : ℕ) (change : FileEntry → FileEntry)
    → ((e : FileEntry) → EntryIsStored e → EntryIsStored (change e))
    → AllStored files
    → AllStored (modify files slot change)
AllStored-modify [] slot change keeps h = tt
AllStored-modify (e ∷ es) zero change keeps h = (keeps e h.0, h.1)
AllStored-modify (e ∷ es) (suc slot) change keeps h =
    (h.0, AllStored-modify es slot change keeps h.1)

fill_entry-IsStored :
    (name : List ℕ) (n size slot : ℕ) (e : FileEntry)
    → AreBytes name
    → size ≤ max_file_size
    → slot < max_files
    → EntryIsStored e
    → EntryIsStored (fill_entry name n size slot e)
unfolding fill_entry
fill_entry-IsStored name n size slot e p small low h = record {
  fits = record {
    name_size =
        length-set (overwrite e.name (take n name)) n 0
        ∙ length-overwrite e.name (take n name)
        ∙ h.fits.name_size;
    size_fits = omega arith;
    offset_fits = omega arith;
    used_fits = omega arith;
    padding_size = h.fits.padding_size;
  };
  name_bytes =
      AreBytes-set (overwrite e.name (take n name)) n 0 (omega arith)
        (AreBytes-overwrite e.name (take n name) h.name_bytes (AreBytes-take n name p));
  padding_bytes = h.padding_bytes;
}

clear_entry-IsStored : (e : FileEntry) → EntryIsStored e → EntryIsStored (clear_entry e)
clear_entry-IsStored e h = record {
  fits = record {
    name_size = length-set e.name 0 0 ∙ h.fits.name_size;
    size_fits = h.fits.size_fits;
    offset_fits = h.fits.offset_fits;
    used_fits = omega arith;
    padding_size = h.fits.padding_size;
  };
  name_bytes = AreBytes-set e.name 0 0 (omega arith) h.name_bytes;
  padding_bytes = h.padding_bytes;
}

pub store_file-IsStored :
    (f : FsState) (slot n size : ℕ) (name content : List ℕ)
    → AreBytes name
    → size ≤ max_file_size
    → slot < max_files
    → HeaderIsStored f.header
    → HeaderIsStored (store_file f slot name n content size).header
unfolding store_file
store_file-IsStored f slot n size name content p small low h = record {
  magic_fits = h.magic_fits;
  count_fits = omega arith;
  files_size = length-modify f.header.files slot (fill_entry name n size slot) ∙ h.files_size;
  entries =
      AllStored-modify f.header.files slot (fill_entry name n size slot)
        (λ e. fill_entry-IsStored name n size slot e p small low) h.entries;
}

pub store_file-data :
    (f : FsState) (slot n size : ℕ) (name content : List ℕ)
    → AreBytes content
    → ((k : ℕ) → f.bytes k < 256)
    → (k : ℕ) → (store_file f slot name n content size).bytes k < 256
unfolding store_file
store_file-data f slot n size name content p h k = ground (
  arith,
  memcpy_lem f.bytes (slot * max_file_size) (take size content) k,
  AreBytes-take size content p (k - slot * max_file_size),
  h k,
)

pub remove_file-IsStored :
    (f : FsState) (slot : ℕ) → HeaderIsStored f.header → HeaderIsStored (remove_file f slot).header
unfolding remove_file
remove_file-IsStored f slot h = record {
  magic_fits = h.magic_fits;
  count_fits = omega arith;
  files_size = length-modify f.header.files slot clear_entry ∙ h.files_size;
  entries = AllStored-modify f.header.files slot clear_entry clear_entry-IsStored h.entries;
}
