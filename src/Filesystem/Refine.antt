-- ===== src/Filesystem/Refine.antt =====
-- The operations of kernel/filesystem.c against the directory that they maintain: what each returns,
-- and the content that the directory shows under each name afterwards.
pub mod Keep
pub mod Create
pub mod Delete
pub mod Read
pub mod Session
pub mod LongName
pub mod Listing
pub mod Reboot
pub mod Durable
pub mod RamOnly
pub mod Boot
use szym_os_kernel.Prelude.{
  ℕ, ◌+◌, ◌-◌, ◌≡◌, ◌⊎◌, Bool, true, false, ◌&&◌, Option, none, some, List, [], ◌∷◌, ◌++◌, ℤ, pos,
  negsuc, eq_ℤ, ltb, ◌==◌, if◌then◌else◌, length, take,
}
use szym_os_kernel.CString.{text_eq}
use szym_os_kernel.System.{System}
use szym_os_kernel.Filesystem.State.{FsState, max_files, max_file_size}
use szym_os_kernel.Filesystem.Directory.{view, count_used, FsIsValid}

-- The result that `fs_create_file` owes for a name `t` and a content `c`.
unfoldable pub create_code : FsState → List ℕ → List ℕ → ℤ
create_code f t c = elim (view f t) [
  | some _ ↦ negsuc 1
  | none ↦
      if count_used f.header.files == max_files
      then negsuc 2
      else if ltb max_file_size (length c)
      then negsuc 3
      else pos 0
]

-- The directory after it: the name is bound if the result is 0.
unfoldable pub create_view : FsState → List ℕ → List ℕ → List ℕ → Option (List ℕ)
create_view f t c u = if eq_ℤ (create_code f t c) (pos 0) && text_eq t u then some c else view f u

-- The number of files after it.
unfoldable pub create_count : FsState → List ℕ → List ℕ → ℕ
create_count f t c = (if eq_ℤ (create_code f t c) (pos 0) then 1 else 0) + count_used f.header.files

-- The result that `fs_delete_file` owes, and the directory after it.
unfoldable pub delete_code : FsState → List ℕ → ℤ
delete_code f t = elim (view f t) [ some _ ↦ pos 0 | none ↦ negsuc 0 ]

unfoldable pub delete_view : FsState → List ℕ → List ℕ → Option (List ℕ)
delete_view f t u = if text_eq t u then none else view f u

unfoldable pub delete_count : FsState → List ℕ → ℕ
delete_count f t = count_used f.header.files - (if eq_ℤ (delete_code f t) (pos 0) then 1 else 0)

-- What an operation on a valid file system returns and leaves: the result, a valid state with the
-- given number of files and directory, and on any other result than 0 the state as it was.
pub record Leaves {Device : Type 0} (code : ℤ) (count : ℕ) (after : List ℕ → Option (List ℕ))
    (s : System Device) (r : ℤ × System Device) : Type 0 where
  pub result : r.0 ≡ code
  pub valid : FsIsValid r.1.fs
  pub counted : count_used r.1.fs.header.files ≡ count
  pub directory : (u : List ℕ) → view r.1.fs u ≡ after u
  pub ready : r.1.fs.initialized ≡ true
  pub unchanged : (eq_ℤ code (pos 0) ≡ true) ⊎ (r.1 ≡ s)

-- What `fs_read_file` owes: the size and the bytes put into a buffer of `max_size` bytes.
unfoldable pub read_reply : Option (List ℕ) → ℕ → ℤ × List ℕ
read_reply none max_size = (negsuc 0, [])
read_reply (some c) max_size =
    let n = if ltb (max_size - 1) (length c) then max_size - 1 else length c in
    (pos n, take n c ++ 0 ∷ [])

unfoldable pub is_file : Option (List ℕ) → Bool
is_file none = false
is_file (some c) = true
