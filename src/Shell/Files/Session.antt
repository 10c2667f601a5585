-- ===== src/Shell/Files/Session.antt =====
-- `cmd_write`, `cmd_cat` and `cmd_rm` of kernel/shell.c against the directory of the file system.
use szym_os_kernel.Prelude.{
  ℕ, ◌<◌, ◌≤◌, ◌≡◌, refl, ap, ◌∙◌, true, false, none, some, List, [], ◌∷◌, ◌++◌, arith, ℤ, pos,
  ◌==◌, if◌then◌else◌, ltb, get_or, length, take-length, overwrite,
}
use szym_os_kernel.CString.{NoNul, text_of}
use szym_os_kernel.CString.Compare.{text_eq_refl}
use szym_os_kernel.Ports.{Ports}
use szym_os_kernel.Console.{writestring, write}
use szym_os_kernel.System.{System, say}
use szym_os_kernel.Filesystem.State.{max_filename, max_file_size}
use szym_os_kernel.Filesystem.Ops.{fs_create_file, fs_delete_file}
use szym_os_kernel.Filesystem.Directory.{view, FsIsValid}
use szym_os_kernel.Filesystem.Refine.{
  create_code, create_count, create_view, delete_code, delete_count, delete_view, Leaves,
  read_reply,
}
use szym_os_kernel.Filesystem.Refine.Create.{fs_create_file-Leaves}
use szym_os_kernel.Filesystem.Refine.Delete.{fs_delete_file-Leaves}
use szym_os_kernel.Filesystem.Refine.Read.{fs_read_file-view}
use szym_os_kernel.Shell.Text.{IsWord, take_word-word, skip_spaces-done, skip_spaces-space}
use szym_os_kernel.Shell.Files.{
  cmd_cat, cmd_write, cmd_rm, write_file, write_report, rm_report, not_found,
}

-- A text that is put in front of a terminator is read back.
pub text_of-end : (t rest : List ℕ) → NoNul t → text_of (t ++ 0 ∷ rest) ≡ some t
unfolding text_of
text_of-end [] rest h = refl
text_of-end (c ∷ t) rest h = let more = text_of-end t rest h.1 in rw (h.0, more)

text_of-overwrite :
    (stack t : List ℕ)
    → NoNul t
    → length t < length stack
    → text_of (overwrite stack (t ++ 0 ∷ [])) ≡ some t
unfolding text_of
text_of-overwrite [] t h fits = absurd (omega arith)
text_of-overwrite (x ∷ stack) [] h fits = refl
text_of-overwrite (x ∷ stack) (c ∷ t) h fits =
    let more = text_of-overwrite stack t h.1 (omega arith) in rw (h.0, more)

IsWord-NoNul : (t : List ℕ) → IsWord t → NoNul t
IsWord-NoNul [] h = tt
IsWord-NoNul (c ∷ t) h = (h.0, IsWord-NoNul t h.2)

overwrite-first :
    (xs : List ℕ) (y : ℕ) (ys : List ℕ) → 0 < length xs → get_or (overwrite xs (y ∷ ys)) 0 0 ≡ y
overwrite-first [] y ys h = absurd (omega arith)
overwrite-first (x ∷ xs) y ys h = refl

-- On a valid, initialised file system `cmd_cat` prints the content of the file that the directory
-- shows under the name, if no byte of it is 0 and it has at most 4096, and else says that there is
-- none. It changes nothing but the screen.
pub cmd_cat-view :
    {Device : Type 0} (name t : List ℕ) (s : System Device)
    → FsIsValid s.fs
    → s.fs.initialized ≡ true
    → text_of name ≡ some t
    → ((view s.fs t ≡ none) → cmd_cat name s ≡ some (say (not_found t) s))
      × ((c : List ℕ)
          → view s.fs t ≡ some c
          → NoNul c
          → length c ≤ max_file_size
          → cmd_cat name s ≡ some (say (writestring c ∷ write "\n" ∷ []) s))
unfolding cmd_cat read_reply
cmd_cat-view name t s v ready named =
    let read = fs_read_file-view s.fs v ready name t named 4097 (omega arith) (omega arith) in
    (
      λ absent. rw (read, absent) (rw named refl),
      λ c at clean small.
          let cut : (if ltb 4096 (length c) then 4096 else length c) ≡ length c = ground arith in
          ground (arith, read, at, cut, take-length c, text_of-end c [] clean),
    )

module _ {Device : Type 0} (ports : Ports Device) (behind : List ℕ) where
  -- The cut of the command, and the call of `fs_create_file` with the two strings.
  pub cmd_write-creates :
      (stack : List ℕ) (a : ℕ) (t : List ℕ) (x : ℕ) (c rest : List ℕ) (s : System Device)
      → FsIsValid s.fs
      → s.fs.initialized ≡ true
      → length stack ≡ max_filename
      → IsWord (a ∷ t)
      → length (a ∷ t) < max_filename
      → (x == b' ') ≡ false
      → NoNul (x ∷ c)
      → let filename = overwrite stack ((a ∷ t) ++ 0 ∷ []) in
        (r : ℤ × System Device) × (fs_create_file ports behind filename ((x ∷ c) ++ 0 ∷ rest) s
          ≡ some r)
        × (cmd_write ports behind stack ((a ∷ t) ++ (b' ' ∷ (x ∷ c) ++ 0 ∷ rest)) s
            ≡ some (say (write_report r.0 (a ∷ t)) r.1))
        × Leaves
            (create_code s.fs (a ∷ t) (x ∷ c))
            (create_count s.fs (a ∷ t) (x ∷ c))
            (create_view s.fs (a ∷ t) (x ∷ c))
            s
            r
  unfolding cmd_write write_file
  cmd_write-creates stack a t x c rest s v ready size word short first clean =
      let filename = overwrite stack ((a ∷ t) ++ 0 ∷ []) in
      let content = (x ∷ c) ++ 0 ∷ rest in
      let named : text_of filename ≡ some (a ∷ t) =
        text_of-overwrite stack (a ∷ t) (IsWord-NoNul (a ∷ t) word) (omega arith) in
      let (r, creates, leaves) =
        fs_create_file-Leaves ports behind filename content (a ∷ t) (x ∷ c) s v ready named short
          (text_of-end (x ∷ c) rest clean) in
      let skips = skip_spaces-done a (t ++ b' ' ∷ content) word.1 in
      let takes = take_word-word 31 b' ' (a ∷ t) content word (omega arith) refl in
      let head : (get_or filename 0 0 == 0) ≡ false =
        ap (λ n. n == 0) (overwrite-first stack a (t ++ 0 ∷ []) (omega arith)) ∙ word.0 in
      let spaced = skip_spaces-space content ∙ skip_spaces-done x (c ++ 0 ∷ rest) first in
      (r, creates, rw (skips, takes, head, spaced, clean.0, creates) (rw named refl), leaves)

  -- On a valid, initialised file system, with a command of a name, one space and a content, where the
  -- name has 1 to 31 bytes, none of them a space or 0, and the content starts with no space:
  -- `cmd_write` cuts the command into the two, `fs_create_file` is called within what it promises,
  -- and the message is the one of its result.
  pub cmd_write-Leaves :
      (stack : List ℕ) (a : ℕ) (t : List ℕ) (x : ℕ) (c rest : List ℕ) (s : System Device)
      → FsIsValid s.fs
      → s.fs.initialized ≡ true
      → length stack ≡ max_filename
      → IsWord (a ∷ t)
      → length (a ∷ t) < max_filename
      → (x == b' ') ≡ false
      → NoNul (x ∷ c)
      → (r : ℤ × System Device) × (cmd_write ports behind stack
            ((a ∷ t) ++ (b' ' ∷ (x ∷ c) ++ 0 ∷ rest))
            s
          ≡ some (say (write_report r.0 (a ∷ t)) r.1))
        × Leaves
            (create_code s.fs (a ∷ t) (x ∷ c))
            (create_count s.fs (a ∷ t) (x ∷ c))
            (create_view s.fs (a ∷ t) (x ∷ c))
            s
            r
  cmd_write-Leaves stack a t x c rest s v ready size word short first clean =
      let (r, creates, writes, leaves) =
        cmd_write-creates stack a t x c rest s v ready size word short first clean in
      (r, writes, leaves)

  -- Under the same conditions, where the name is new, a slot is free and the content has at most 4096
  -- bytes, `cat` with the name behind `write` prints the content.
  pub cmd_cat-cmd_write :
      (stack : List ℕ) (a : ℕ) (t : List ℕ) (x : ℕ) (c rest rest' : List ℕ) (s : System Device)
      → FsIsValid s.fs
      → s.fs.initialized ≡ true
      → length stack ≡ max_filename
      → IsWord (a ∷ t)
      → length (a ∷ t) < max_filename
      → (x == b' ') ≡ false
      → NoNul (x ∷ c)
      → create_code s.fs (a ∷ t) (x ∷ c) ≡ pos 0
      → length (x ∷ c) ≤ max_file_size
      → (s' : System Device) × (cmd_write ports behind stack
            ((a ∷ t) ++ (b' ' ∷ (x ∷ c) ++ 0 ∷ rest))
            s
          ≡ some s')
        × (cmd_cat ((a ∷ t) ++ 0 ∷ rest') s'
            ≡ some (say (writestring (x ∷ c) ∷ write "\n" ∷ []) s'))
  unfolding create_view
  cmd_cat-cmd_write stack a t x c rest rest' s v ready size word short first clean new small =
      let (r, writes, leaves) =
        cmd_write-Leaves stack a t x c rest s v ready size word short first clean in
      let s' = say (write_report r.0 (a ∷ t)) r.1 in
      let bound : view s'.fs (a ∷ t) ≡ some (x ∷ c) =
        leaves.directory (a ∷ t) ∙ rw (new, text_eq_refl (a ∷ t)) refl in
      let cats =
        cmd_cat-view ((a ∷ t) ++ 0 ∷ rest') (a ∷ t) s' leaves.valid leaves.ready
          (text_of-end (a ∷ t) rest' (IsWord-NoNul (a ∷ t) word)) in
      (s', writes, cats.1 (x ∷ c) bound clean small)

  -- On a valid, initialised file system and for a terminated name, `cmd_rm` has the result and the
  -- effect of `fs_delete_file`, and prints the message of the result.
  pub cmd_rm-deletes :
      (name t : List ℕ) (s : System Device)
      → FsIsValid s.fs
      → s.fs.initialized ≡ true
      → text_of name ≡ some t
      → (r : ℤ × System Device) × (fs_delete_file ports behind name s ≡ some r)
        × (cmd_rm ports behind name s ≡ some (say (rm_report r.0 t) r.1))
        × Leaves (delete_code s.fs t) (delete_count s.fs t) (delete_view s.fs t) s r
  unfolding cmd_rm
  cmd_rm-deletes name t s v ready named =
      let (r, deletes, leaves) = fs_delete_file-Leaves ports behind name t s v ready named in
      (r, deletes, rw (deletes, named) refl, leaves)
