-- ===== src/Shell/Files.antt =====
-- `cmd_ls`, `cmd_cat`, `cmd_write` and `cmd_rm` of kernel/shell.c.
pub mod Session
use szym_os_kernel.Prelude.{
  ℕ, ◌+◌, ◌-◌, Option, some, List, [], ◌∷◌, ◌++◌, ℤ, pos, negsuc, eq_ℤ, ltb_ℤ, ◌==◌, if◌then◌else◌,
  ◌>>=◌, get_or, overwrite, true, false,
}
use szym_os_kernel.CString.{text_of}
use szym_os_kernel.Ports.{Ports}
use szym_os_kernel.Console.{
  Call, str, writestring, foreground, write, format, notice, light_green, light_red, white,
}
use szym_os_kernel.System.{System, say}
use szym_os_kernel.Filesystem.State.{max_filename, max_file_size}
use szym_os_kernel.Filesystem.Ops.{fs_create_file, fs_delete_file, fs_read_file, fs_list_files}
use szym_os_kernel.Shell.Text.{skip_spaces, take_word}

-- A message with a name, between a color and the return to white.
abbrev pub name_notice : ℕ → List Call → List Call
name_notice fg calls = foreground fg ∷ (calls ++ foreground white ∷ [])

abbrev pub not_found : List ℕ → List Call
not_found t = name_notice light_red (format "File not found: %s\n" (str t ∷ []) ∷ [])

abbrev pub write_usage : List Call
write_usage =
    write "Usage: write <filename> <content>\n"
    ∷ write "Example: write hello.txt Hello World!\n"
    ∷ []

-- What `cmd_write` says of the result.
unfoldable pub write_report : ℤ → List ℕ → List Call
write_report result t =
    if eq_ℤ result (pos 0)
    then name_notice light_green (format "File created: %s\n" (str t ∷ []) ∷ [])
    else if eq_ℤ result (negsuc 1)
    then name_notice light_red (format "Error: File already exists: %s\n" (str t ∷ []) ∷ [])
    else if eq_ℤ result (negsuc 2)
    then notice light_red "Error: Filesystem full\n"
    else notice light_red "Error: Could not create file\n"

-- What `cmd_rm` says of the result.
abbrev pub rm_report : ℤ → List ℕ → List Call
rm_report result t =
    if eq_ℤ result (pos 0)
    then name_notice light_green (format "File deleted: %s\n" (str t ∷ []) ∷ [])
    else not_found t

abbrev pub cmd_ls : {Device : Type 0} → System Device → Option (System Device)
cmd_ls s = fs_list_files s

unfoldable pub cmd_cat : {Device : Type 0} → List ℕ → System Device → Option (System Device)
cmd_cat filename s = fs_read_file filename (max_file_size + 1) s.fs >>= λ r.
    if ltb_ℤ r.0 (pos 0)
    then (text_of filename >>= λ t. some (say (not_found t) s))
    else (text_of r.1 >>= λ t. some (say (writestring t ∷ write "\n" ∷ []) s))

module _ {Device : Type 0} (ports : Ports Device) (behind : List ℕ) where
  -- `cmd_write` once the name is in `filename`; `content_start` is the pointer behind it.
  unfoldable pub write_file : List ℕ → List ℕ → System Device → Option (System Device)
  unfolding write_report
  write_file filename content_start s = skip_spaces content_start >>= λ content.
      if get_or content 0 0 == 0
      then some (say (write "Error: No content provided\n" ∷ []) s)
      else (fs_create_file ports behind filename content s >>= λ r.
          text_of filename >>= λ t. some (say (write_report r.0 t) r.1))

  -- `stack` is what the array `filename` holds before it is written to.
  unfoldable pub cmd_write : List ℕ → List ℕ → System Device → Option (System Device)
  unfolding write_file
  cmd_write stack args s = skip_spaces args >>= λ p. take_word (max_filename - 1) p >>= λ r.
      let filename = overwrite stack (r.0 ++ 0 ∷ []) in
      if get_or filename 0 0 == 0 then some (say write_usage s) else write_file filename r.1 s

  unfoldable pub cmd_rm : List ℕ → System Device → Option (System Device)
  cmd_rm filename s = fs_delete_file ports behind filename s >>= λ r.
      text_of filename >>= λ t. some (say (rm_report r.0 t) r.1)
