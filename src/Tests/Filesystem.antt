-- ===== src/Tests/Filesystem.antt =====
-- kernel/filesystem.c on a machine with no disk, and the layout of an entry.
use szym_os_kernel.Prelude.{
  ℕ, zero, suc, ◌≡◌, refl, false, some, List, [], ◌∷◌, ◌++◌, arith, ℤ, pos, negsuc, eq_ℤ, replicate,
  length-replicate,
}
use szym_os_kernel.CString.{codes, literal, text_of, strcmp, strncmp, text_eq}
use szym_os_kernel.CString.Compare.{strcmp-text, strncmp-text}
use szym_os_kernel.Ports.{Ports}
use szym_os_kernel.System.{System, say}
use szym_os_kernel.Ata.State.{AtaState}
use szym_os_kernel.Ata.Drives.{ata_is_selected}
use szym_os_kernel.Filesystem.State.{FileEntry}
use szym_os_kernel.Filesystem.Layout.RoundTrip.{AllFit, HeaderFits}
use szym_os_kernel.Filesystem.Ops.{
  fs_create_file, fs_delete_file, fs_read_file, fs_file_exists, fs_list_files,
}
use szym_os_kernel.Filesystem.Persist.{disk_available, fs_init, fs_save_to_disk}
use szym_os_kernel.Filesystem.Persist.Frame.{KeepsFiles, fs_save_to_disk-KeepsFiles}
use szym_os_kernel.Filesystem.Directory.{view}
use szym_os_kernel.Filesystem.Refine.{
  create_code, create_count, create_view, delete_code, delete_count, delete_view, read_reply,
  is_file, Leaves,
}
use szym_os_kernel.Filesystem.Refine.Create.{fs_create_file-Leaves}
use szym_os_kernel.Filesystem.Refine.Delete.{fs_delete_file-Leaves}
use szym_os_kernel.Filesystem.Refine.LongName.{fs_create_file-long}
use szym_os_kernel.Filesystem.Refine.Listing.{listing, fs_list_files-listing}
use szym_os_kernel.Filesystem.Refine.Read.{fs_read_file-view, fs_file_exists-view}
use szym_os_kernel.Filesystem.Refine.Boot.{NamesHaveSize, IsTable, fs_init-Represents}
use szym_os_kernel.Filesystem.Refine.Session.{
  Request, create, delete, read, exists, code, content, answer, run, find, erase, says_create,
  says_delete, says_read, says_exists, AllSpoken, quiet, spoken, ask_create, ask_delete, ask_all,
  Represents,
}
use szym_os_kernel.Filesystem.Refine.Session.Steps.{run_refines}

-- Ports with nothing behind them.
abbrev pub silent : Ports (Unit {0})
silent = record {
  inb = λ port d. (0xFF, d);
  inw = λ port d. (0xFFFF, d);
  outb = λ port value d. d;
  outw = λ port value d. d;
}

abbrev pub blank_entry : FileEntry
blank_entry = record {
  name = replicate 32 0;
  size = 0;
  offset = 0;
  used = 0;
  padding = 0 ∷ 0 ∷ 0 ∷ [];
}

abbrev pub no_drives : AtaState
no_drives = record { drives = []; drive_count = pos 0; selected_drive = negsuc 0 }

abbrev pub raw : System (Unit {0})
raw = record {
  dev = tt;
  console = [];
  ata = no_drives;
  fs = record {
    header = record { magic = 0; file_count = 0; files = replicate 32 blank_entry };
    bytes = λ i. 0;
    initialized = false;
    persistent = false;
    drive_io_base = 0;
    drive_num = 0;
    drive_selected = false;
  };
}

names_of_blank : (n : ℕ) → NamesHaveSize (replicate n blank_entry)
unfolding replicate
names_of_blank zero = tt
names_of_blank (suc n) = (length-replicate {A = ℕ} 32 0, names_of_blank n)

pub table : IsTable raw.fs.header.files
table = record {
  files_size = length-replicate {A = FileEntry} 32 blank_entry;
  names_size = names_of_blank 32;
}

abbrev pub booted : System (Unit {0})
booted = fs_init silent [] raw

pub booted-Represents : Represents booted []
unfolding ata_is_selected disk_available
booted-Represents = fs_init-Represents silent [] raw table refl

fs_init-Represents_example : Represents (fs_init silent [] raw) []
unfolding ata_is_selected disk_available
fs_init-Represents_example = fs_init-Represents silent [] raw table refl

-- A file is created, read through a short buffer, created again, deleted, and looked for.
abbrev script : List Request
script =
    create (literal "a.txt") (literal "hello")
    ∷ read (literal "a.txt") 4
    ∷ create (literal "a.txt") (literal "other")
    ∷ delete (literal "a.txt")
    ∷ exists (literal "a.txt")
    ∷ []

script-spoken : AllSpoken script
unfolding text_of
script-spoken = spoken (says_create (codes "a.txt") (codes "hello") refl (omega arith) refl) (
    spoken (says_read (codes "a.txt") refl (omega arith) (omega arith)) (
      spoken (says_create (codes "a.txt") (codes "other") refl (omega arith) refl) (
        spoken (says_delete (codes "a.txt") refl)
          (spoken (says_exists (codes "a.txt") refl) quiet))))

run_refines_example : run silent [] script booted ≡ some (ask_all script-spoken [])
run_refines_example = run_refines silent [] script-spoken booted [] booted-Represents

script_replies :
    ask_all script-spoken []
    ≡ code (pos 0)
      ∷ content (pos 3, codes "hel" ++ 0 ∷ [])
      ∷ code (negsuc 1)
      ∷ code (pos 0)
      ∷ answer false
      ∷ []
unfolding ask_all script-spoken ask_create ask_delete find erase text_eq read_reply is_file
script_replies = refl

fs_create_file-Leaves_example :
    (r : ℤ × System (Unit {0})) × (fs_create_file silent []
        (literal "a.txt")
        (literal "hello")
        booted
      ≡ some r)
    × Leaves
        (create_code booted.fs (codes "a.txt") (codes "hello"))
        (create_count booted.fs (codes "a.txt") (codes "hello"))
        (create_view booted.fs (codes "a.txt") (codes "hello"))
        booted
        r
unfolding text_of
fs_create_file-Leaves_example =
    fs_create_file-Leaves silent [] (literal "a.txt") (literal "hello") (codes "a.txt")
      (codes "hello") booted booted-Represents.valid booted-Represents.ready refl (omega arith) refl

fs_delete_file-Leaves_example :
    (r : ℤ × System (Unit {0})) × (fs_delete_file silent [] (literal "a.txt") booted ≡ some r)
    × Leaves
        (delete_code booted.fs (codes "a.txt"))
        (delete_count booted.fs (codes "a.txt"))
        (delete_view booted.fs (codes "a.txt"))
        booted
        r
unfolding text_of
fs_delete_file-Leaves_example =
    fs_delete_file-Leaves silent [] (literal "a.txt") (codes "a.txt") booted booted-Represents.valid
      booted-Represents.ready refl

fs_read_file-view_example :
    fs_read_file (literal "a.txt") 4097 booted.fs
    ≡ some (read_reply (view booted.fs (codes "a.txt")) 4097)
unfolding text_of
fs_read_file-view_example =
    fs_read_file-view booted.fs booted-Represents.valid booted-Represents.ready (literal "a.txt")
      (codes "a.txt") refl 4097 (omega arith) (omega arith)

fs_file_exists-view_example :
    fs_file_exists (literal "README.txt") booted.fs
    ≡ some (is_file (view booted.fs (codes "README.txt")))
unfolding text_of
fs_file_exists-view_example =
    fs_file_exists-view booted.fs booted-Represents.valid booted-Represents.ready
      (literal "README.txt") (codes "README.txt") refl

fs_save_to_disk-KeepsFiles_example : KeepsFiles raw (fs_save_to_disk silent [] raw)
fs_save_to_disk-KeepsFiles_example = fs_save_to_disk-KeepsFiles silent [] raw

blank-AllFit : (n : ℕ) → AllFit (replicate n blank_entry)
unfolding replicate
blank-AllFit zero = tt
blank-AllFit (suc n) = (
  record {
    name_size = length-replicate {A = ℕ} 32 0;
    size_fits = omega arith;
    offset_fits = omega arith;
    used_fits = omega arith;
    padding_size = refl;
  },
  blank-AllFit n,
)

raw-HeaderFits : HeaderFits raw.fs.header
raw-HeaderFits = record {
  magic_fits = omega arith;
  count_fits = omega arith;
  files_size = length-replicate {A = FileEntry} 32 blank_entry;
  files_fit = blank-AllFit 32;
}

strcmp-text_example :
    (z : ℤ) × (strcmp (literal "cat") (literal "car") ≡ some z)
    × (eq_ℤ z (pos 0) ≡ text_eq (codes "cat") (codes "car"))
unfolding text_of
strcmp-text_example =
    strcmp-text (literal "cat") (literal "car") (codes "cat") (codes "car") refl refl

abbrev long_name : List ℕ
long_name = literal "a-name-of-more-than-31-characters.txt"

fs_create_file-long_example :
    (s' : System (Unit {0})) × (fs_create_file silent [] long_name (literal "hello") booted
      ≡ some (pos 0, s'))
    × (fs_file_exists long_name s'.fs ≡ some false)
unfolding text_of
fs_create_file-long_example =
    fs_create_file-long silent [] long_name (literal "hello")
      (codes "a-name-of-more-than-31-characters.txt") (codes "hello") booted booted-Represents.valid
      booted-Represents.ready refl (omega arith) refl (omega arith)
      (omega (arith, booted-Represents.number))

created :
    (r : ℤ × System (Unit {0})) × (fs_create_file silent []
        (literal "b.txt")
        (literal "text")
        booted
      ≡ some r)
    × Leaves
        (create_code booted.fs (codes "b.txt") (codes "text"))
        (create_count booted.fs (codes "b.txt") (codes "text"))
        (create_view booted.fs (codes "b.txt") (codes "text"))
        booted
        r
unfolding text_of
created =
    fs_create_file-Leaves silent [] (literal "b.txt") (literal "text") (codes "b.txt")
      (codes "text") booted booted-Represents.valid booted-Represents.ready refl (omega arith) refl

fs_list_files-listing_example :
    fs_list_files created.0.1 ≡ some (say (listing created.0.1.fs.header.files) created.0.1)
fs_list_files-listing_example = fs_list_files-listing created.0.1 created.2.valid created.2.ready

strncmp-text_example :
    (z : ℤ) × (strncmp (literal "cat") (literal "car") 2 ≡ some z)
    × (eq_ℤ z (pos 0) ≡ text_eq (codes "ca") (codes "ca"))
unfolding text_of
strncmp-text_example =
    strncmp-text 2 (literal "cat") (literal "car") (codes "cat") (codes "car") refl refl
