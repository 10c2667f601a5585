-- ===== src/Filesystem/Refine/Session.antt =====
-- A client's calls of the file system in memory, against the list of its files.
pub mod Steps
use szym_os_kernel.Prelude.{
  ℕ, zero, suc, ◌+◌, ◌-◌, ◌<◌, ◌≡◌, refl, sym, ap, ◌∙◌, inl, inr, Bool, true, false, Option, none,
  some, List, [], ◌∷◌, arith, ℤ, pos, negsuc, eq_ℤ, ltb, ◌==◌, if◌then◌else◌, ◌>>=◌, Bool-cases,
  Option-cases, length,
}
use szym_os_kernel.CString.{text_of, text_eq}
use szym_os_kernel.Ports.{Ports}
use szym_os_kernel.System.{System}
use szym_os_kernel.Filesystem.State.{max_files, max_filename, max_file_size}
use szym_os_kernel.Filesystem.Ops.{fs_create_file, fs_delete_file, fs_read_file, fs_file_exists}
use szym_os_kernel.Filesystem.Directory.{view, count_used, FsIsValid}
use szym_os_kernel.Filesystem.Refine.{
  create_code, create_view, create_count, delete_code, delete_view, delete_count, read_reply,
  is_file, Leaves,
}

-- The calls, with the buffers that they pass.
pub data Request : Type 0 where
  create : List ℕ → List ℕ → Request
  delete : List ℕ → Request
  read : List ℕ → ℕ → Request
  exists : List ℕ → Request

pub data Reply : Type 0 where
  code : ℤ → Reply
  content : ℤ × List ℕ → Reply
  answer : Bool → Reply

-- A step of the kernel: the reply and the next state.
unfoldable pub serve :
    {Device : Type 0}
    → Ports Device
    → List ℕ
    → Request
    → System Device
    → Option (Reply × System Device)
serve ports behind (create name text) s =
    fs_create_file ports behind name text s >>= λ r. some (code r.0, r.1)
serve ports behind (delete name) s =
    fs_delete_file ports behind name s >>= λ r. some (code r.0, r.1)
serve ports behind (read name max_size) s =
    fs_read_file name max_size s.fs >>= λ r. some (content r, s)
serve ports behind (exists name) s = fs_file_exists name s.fs >>= λ b. some (answer b, s)

unfoldable pub run :
    {Device : Type 0} → Ports Device → List ℕ → List Request → System Device → Option (List Reply)
unfolding serve
run ports behind [] s = some []
run ports behind (q ∷ qs) s =
    serve ports behind q s >>= λ r. run ports behind qs r.1 >>= λ rest. some (r.0 ∷ rest)

-- The specification: the files as a list of names and contents.
abbrev pub Files : Type 0
Files = List (List ℕ × List ℕ)

unfoldable pub find : List ℕ → Files → Option (List ℕ)
find t [] = none
find t ((u, c) ∷ fs) = if text_eq u t then some c else find t fs

unfoldable pub erase : List ℕ → Files → Files
erase t [] = []
erase t ((u, c) ∷ fs) = if text_eq u t then fs else (u, c) ∷ erase t fs

-- The request with the texts that its buffers hold.
pub data Spoken : Request → Type 0 where
  says_create :
      {name text : List ℕ} (t c : List ℕ)
      → text_of name ≡ some t
      → length t < max_filename
      → text_of text ≡ some c
      → Spoken (create name text)
  says_delete : {name : List ℕ} (t : List ℕ) → text_of name ≡ some t → Spoken (delete name)
  says_read :
      {name : List ℕ} {max_size : ℕ} (t : List ℕ)
      → text_of name ≡ some t
      → 0 < max_size
      → max_size < 4294967296
      → Spoken (read name max_size)
  says_exists : {name : List ℕ} (t : List ℕ) → text_of name ≡ some t → Spoken (exists name)

pub data AllSpoken : List Request → Type 0 where
  quiet : AllSpoken []
  spoken : {q : Request} {qs : List Request} → Spoken q → AllSpoken qs → AllSpoken (q ∷ qs)

-- What a request to create or to delete a file is owed: the result, and the files after it.
unfoldable pub ask_create : List ℕ → List ℕ → Files → ℤ × Files
ask_create t c fs = elim (find t fs) [
  | some _ ↦ (negsuc 1, fs)
  | none ↦
      if length fs == max_files
      then (negsuc 2, fs)
      else if ltb max_file_size (length c)
      then (negsuc 3, fs)
      else (pos 0, (t, c) ∷ fs)
]

unfoldable pub ask_delete : List ℕ → Files → ℤ × Files
ask_delete t fs = elim (find t fs) [ some _ ↦ (pos 0, erase t fs) | none ↦ (negsuc 0, fs) ]

-- The reply that a request is owed, and the files after it.
unfoldable pub ask : {q : Request} → Spoken q → Files → Reply × Files
ask (says_create t c _ _ _) fs = (code (ask_create t c fs).0, (ask_create t c fs).1)
ask (says_delete t _) fs = (code (ask_delete t fs).0, (ask_delete t fs).1)
ask (says_read {max_size} t _ _ _) fs = (content (read_reply (find t fs) max_size), fs)
ask (says_exists t _) fs = (answer (is_file (find t fs)), fs)

unfoldable pub ask_all : {qs : List Request} → AllSpoken qs → Files → List Reply
unfolding ask
ask_all quiet fs = []
ask_all (spoken q qs) fs = (ask q fs).0 ∷ ask_all qs (ask q fs).1

-- No name is listed twice.
abbrev pub NamesDiffer : Files → Type 0
NamesDiffer [] = Unit
NamesDiffer ((u, c) ∷ fs) = (find u fs ≡ none) × NamesDiffer fs

-- The kernel's state holds exactly these files.
pub record Represents {Device : Type 0} (s : System Device) (fs : Files) : Type 0 where
  pub valid : FsIsValid s.fs
  pub ready : s.fs.initialized ≡ true
  pub same : (u : List ℕ) → view s.fs u ≡ find u fs
  pub number : count_used s.fs.header.files ≡ length fs
  pub names_differ : NamesDiffer fs
