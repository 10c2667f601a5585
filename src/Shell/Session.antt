-- ===== src/Shell/Session.antt =====
-- The commands of kernel/shell.c on files, `cat`, `write` and `rm`, against the list of the files: what
-- a user means by a line, and what the shell owes.
pub mod Answers
pub mod Typed
use szym_os_kernel.Prelude.{
  ℕ, ◌<◌, ◌≤◌, ◌≡◌, true, false, Bool, ◌&&◌, not, Option, none, some, List, [], ◌∷◌, ◌++◌, ℤ, pos,
  ◌==◌, if◌then◌else◌, length, get_or, map,
}
use szym_os_kernel.CString.{codes, NoNul}
use szym_os_kernel.Console.{Call, putchar, writestring, write}
use szym_os_kernel.System.{System}
use szym_os_kernel.Filesystem.State.{max_filename, max_file_size}
use szym_os_kernel.Filesystem.Persist.{disk_available}
use szym_os_kernel.Filesystem.Refine.RamOnly.{warned}
use szym_os_kernel.Filesystem.Refine.Session.{Files, find, ask_create, ask_delete, Represents}
use szym_os_kernel.Shell.Text.{IsWord}
use szym_os_kernel.Shell.Screens.{shell_print_prompt}
use szym_os_kernel.Shell.Stream.{ArePrinted}
use szym_os_kernel.Shell.Files.{write_report, rm_report, not_found}

pub data Entry : Type 0 where
  cat : List ℕ → Entry
  put : List ℕ → List ℕ → Entry
  rm : List ℕ → Entry

-- The line that is typed for it.
abbrev pub line_of : Entry → List ℕ
line_of (cat name) = codes "cat " ++ name
line_of (put name content) = codes "write " ++ (name ++ b' ' ∷ content)
line_of (rm name) = codes "rm " ++ name

-- Names and contents that a line can carry: a file is written under a word of 1 to 31 bytes, and its
-- content is not empty and starts with no space.
abbrev pub IsEntry : Entry → Type 0
IsEntry (cat name) = NoNul name
IsEntry (put name content) =
    IsWord name
    × (0 < length name)
    × (length name < max_filename)
    × NoNul content
    × ((get_or content 0 b' ' == b' ') ≡ false)
IsEntry (rm name) = NoNul name

abbrev pub cat_answer : List ℕ → Option (List ℕ) → List Call
cat_answer name none = not_found name
cat_answer name (some content) = writestring content ∷ write "\n" ∷ []

-- What is printed, and the files afterwards, on a machine where no disk is selected.
unfoldable pub answer : Entry → Files → List Call × Files
answer (cat name) fs = (cat_answer name (find name fs), fs)
answer (put name content) fs =
    let (code, fs') = ask_create name content fs in (warned code ++ write_report code name, fs')
answer (rm name) fs =
    let (code, fs') = ask_delete name fs in (warned code ++ rm_report code name, fs')

-- Contents that `cat` prints whole.
abbrev pub ArePlain : Files → Type 0
ArePlain [] = Unit
ArePlain ((u, c) ∷ fs) = NoNul c × (length c ≤ max_file_size) × ArePlain fs

-- The kernel holds these files and no disk is selected.
pub record Serves {Device : Type 0} (s : System Device) (fs : Files) : Type 0 where
  pub holds : Represents s fs
  pub plain : ArePlain fs
  pub alone : disk_available s ≡ false

-- The characters that are typed for a sequence of entries: each line is followed by Enter.
unfoldable pub typed_lines : List Entry → List ℕ
typed_lines [] = []
typed_lines (x ∷ xs) = line_of x ++ 10 ∷ typed_lines xs

-- What stands on the screen behind the first prompt, and the files in the end.
unfoldable pub transcript : List Entry → Files → List Call
unfolding answer
transcript [] fs = []
transcript (x ∷ xs) fs =
    let (calls, fs') = answer x fs in
    map putchar (line_of x) ++ (putchar 10 ∷ (calls ++ shell_print_prompt) ++ transcript xs fs')

unfoldable pub files_after : List Entry → Files → Files
unfolding answer
files_after [] fs = fs
files_after (x ∷ xs) fs = files_after xs (answer x fs).1

-- Entries whose lines have room in the buffer, and hold no tab, backspace or Enter.
abbrev pub AreEntries : List Entry → Type 0
AreEntries [] = Unit
AreEntries (x ∷ xs) =
    IsEntry x × ArePrinted (line_of x) × (length (line_of x) ≤ 255) × AreEntries xs
