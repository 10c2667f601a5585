-- ===== src/Filesystem/Layout.antt =====
-- The bytes of `fs_header`: the layout that the i386 ABI gives `filesystem_header_t` of
-- kernel/filesystem.h, which `fs_save_to_disk` and `fs_load_from_disk` copy as raw memory.
pub mod RoundTrip
use szym_os_kernel.Prelude.{
  ℕ, zero, suc, ◌+◌, ◌*◌, ◌/◌, ◌%◌, List, [], ◌∷◌, ◌++◌, take, drop, get_or,
}
use szym_os_kernel.Filesystem.State.{FileEntry, Header, max_files, max_filename, entry_size}

-- A `uint32_t` in memory, least byte first.
unfoldable pub le32 : ℕ → List ℕ
le32 n = n % 256 ∷ n / 256 % 256 ∷ n / 65536 % 256 ∷ n / 16777216 % 256 ∷ []

unfoldable pub read_le32 : List ℕ → ℕ
read_le32 b = get_or b 0 0 + 256 * get_or b 1 0 + 65536 * get_or b 2 0 + 16777216 * get_or b 3 0

unfoldable pub encode_entry : FileEntry → List ℕ
encode_entry e = e.name ++ (le32 e.size ++ (le32 e.offset ++ e.used ∷ e.padding))

unfoldable pub decode_entry : List ℕ → FileEntry
decode_entry b = record {
  name = take max_filename b;
  size = read_le32 (drop max_filename b);
  offset = read_le32 (drop 4 (drop max_filename b));
  used = get_or (drop 4 (drop 4 (drop max_filename b))) 0 0;
  padding = take 3 (drop 1 (drop 4 (drop 4 (drop max_filename b))));
}

unfoldable pub encode_entries : List FileEntry → List ℕ
encode_entries [] = []
encode_entries (e ∷ es) = encode_entry e ++ encode_entries es

unfoldable pub decode_entries : ℕ → List ℕ → List FileEntry
decode_entries zero b = []
decode_entries (suc n) b = decode_entry b ∷ decode_entries n (drop entry_size b)

unfoldable pub encode_header : Header → List ℕ
encode_header h = le32 h.magic ++ (le32 h.file_count ++ encode_entries h.files)

unfoldable pub decode_header : List ℕ → Header
decode_header b = record {
  magic = read_le32 b;
  file_count = read_le32 (drop 4 b);
  files = decode_entries max_files (drop 4 (drop 4 b));
}
