-- ===== src/Filesystem/Layout/RoundTrip.antt =====
-- The bytes of a header: their number, and reading them back.
use szym_os_kernel.Prelude.{
  ℕ, zero, suc, ◌*◌, ◌≡◌, refl, ◌<◌, List, [], ◌∷◌, ◌++◌, arith, length, length-append, take, drop,
  take-append, drop-append,
}
use mathlib.Core.List.{append_assoc}
use mathlib.Core.Path.{ap₂}
use szym_os_kernel.Filesystem.State.{
  FileEntry, Header, max_files, max_filename, entry_size, header_size,
}
use szym_os_kernel.Filesystem.Layout.{
  le32, read_le32, encode_entry, decode_entry, encode_entries, decode_entries, encode_header,
  decode_header,
}

-- The fields fit their C types.
pub record EntryFits (e : FileEntry) : Type 0 where
  pub name_size : length e.name ≡ max_filename
  pub size_fits : e.size < 4294967296
  pub offset_fits : e.offset < 4294967296
  pub used_fits : e.used < 256
  pub padding_size : length e.padding ≡ 3

abbrev pub AllFit : List FileEntry → Type 0
AllFit [] = Unit
AllFit (e ∷ es) = EntryFits e × AllFit es

pub record HeaderFits (h : Header) : Type 0 where
  pub magic_fits : h.magic < 4294967296
  pub count_fits : h.file_count < 4294967296
  pub files_size : length h.files ≡ max_files
  pub files_fit : AllFit h.files

length-le32 : (n : ℕ) → length (le32 n) ≡ 4
unfolding le32
length-le32 n = refl

read_le32-le32 : (n : ℕ) (rest : List ℕ) → n < 4294967296 → read_le32 (le32 n ++ rest) ≡ n
unfolding read_le32 le32
read_le32-le32 n rest h = omega arith

drop-le32 : (n : ℕ) (rest : List ℕ) → drop 4 (le32 n ++ rest) ≡ rest
unfolding le32
drop-le32 n rest = refl

take_at : (k : ℕ) (xs ys : List ℕ) → length xs ≡ k → take k (xs ++ ys) ≡ xs
take_at k xs ys h = rw (← h) (take-append xs ys)

drop_at : (k : ℕ) (xs ys : List ℕ) → length xs ≡ k → drop k (xs ++ ys) ≡ ys
drop_at k xs ys h = rw (← h) (drop-append xs ys)

pub length-encode_entry : (e : FileEntry) → EntryFits e → length (encode_entry e) ≡ entry_size
unfolding encode_entry le32
length-encode_entry e v = omega (arith, length-append {0} e.name, v.name_size, v.padding_size)

-- An entry is read back whatever follows it.
pub decode_entry-encode :
    (e : FileEntry) (rest : List ℕ) → EntryFits e → decode_entry (encode_entry e ++ rest) ≡ e
unfolding encode_entry decode_entry
decode_entry-encode e rest v = rw (
  append_assoc e.name,
  append_assoc (le32 e.size),
  append_assoc (le32 e.offset),
  take_at max_filename e.name _ v.name_size,
  drop_at max_filename e.name _ v.name_size,
  read_le32-le32 e.size _ v.size_fits,
  drop-le32 e.size,
  read_le32-le32 e.offset _ v.offset_fits,
  drop-le32 e.offset,
  take_at 3 e.padding rest v.padding_size,
)

decode_entries-encode :
    (es : List FileEntry) (n : ℕ)
    → length es ≡ n
    → AllFit es
    → decode_entries n (encode_entries es) ≡ es
unfolding encode_entries decode_entries
decode_entries-encode [] zero h v = refl
decode_entries-encode [] (suc n) h v = absurd (omega arith)
decode_entries-encode (e ∷ es) zero h v = absurd (omega arith)
decode_entries-encode (e ∷ es) (suc n) h v =
    ap₂ ◌∷◌ (decode_entry-encode e (encode_entries es) v.0) (
      rw (drop_at entry_size (encode_entry e) (encode_entries es) (length-encode_entry e v.0))
        (decode_entries-encode es n (omega arith) v.1))

length-encode_entries :
    (es : List FileEntry) → AllFit es → length (encode_entries es) ≡ entry_size * length es
unfolding encode_entries
length-encode_entries [] v = refl
length-encode_entries (e ∷ es) v = omega (
  arith,
  length-append {0} (encode_entry e),
  length-encode_entry e v.0,
  length-encode_entries es v.1,
)

-- The encoding of a header whose fields fit their C types fills `sizeof(filesystem_header_t)` bytes.
pub length-encode_header : (h : Header) → HeaderFits h → length (encode_header h) ≡ header_size
unfolding encode_header
length-encode_header h v = omega (
  arith,
  length-append {0} (le32 h.magic),
  length-append {0} (le32 h.file_count),
  length-le32 h.magic,
  length-le32 h.file_count,
  length-encode_entries h.files v.files_fit,
  v.files_size,
)

-- The bytes of a header whose fields fit their C types read back as that header.
pub decode_header-encode : (h : Header) → HeaderFits h → decode_header (encode_header h) ≡ h
unfolding encode_header decode_header
decode_header-encode h v = rw (
  read_le32-le32 h.magic _ v.magic_fits,
  drop-le32 h.magic,
  read_le32-le32 h.file_count _ v.count_fits,
  drop-le32 h.file_count,
  decode_entries-encode h.files max_files v.files_size v.files_fit,
)
