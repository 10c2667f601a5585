-- ===== src/Tests/Reboot.antt =====
-- A file system with one file that is saved, and a machine that starts again with its drive.
use szym_os_kernel.Prelude.{
  map, ℕ, zero, suc, ◌+◌, ◌≡◌, refl, inl, inr, Bool, true, false, ◌&&◌, none, List, [], ◌∷◌, ◌++◌,
  arith, pos, ltb, ◌==◌, if◌then◌else◌, replicate, length, length-replicate,
}
use szym_os_kernel.Prelude.Bytes.{slice}
use szym_os_kernel.Prelude.Index.{AreBytes}
use szym_os_kernel.CString.{codes, text_of}
use szym_os_kernel.System.{System}
use szym_os_kernel.Ata.Disk.{Drive, idle}
use szym_os_kernel.Ata.Drives.{ata_is_selected}
use szym_os_kernel.Filesystem.State.{FileEntry, szymfs_magic}
use szym_os_kernel.Filesystem.Layout.{le32, encode_entry, encode_entries, encode_header}
use szym_os_kernel.Filesystem.Layout.RoundTrip.{AllFit, HeaderFits}
use szym_os_kernel.Filesystem.Persist.{disk_available, empty_entry, fs_save_to_disk, fs_init}
use szym_os_kernel.Filesystem.Directory.{
  name_text, holds, any_holds, view_files, view, count_used, FilesAreValid, AreDistinct,
}
use szym_os_kernel.Filesystem.Refine.Session.{Files, find, Represents}
use szym_os_kernel.Filesystem.Refine.Reboot.{CanSave, Restarted, fs_init-fs_save_to_disk}
use szym_os_kernel.Tests.Disk.{prompt_ports, prompt_disk}

abbrev pub note : FileEntry
note = record {
  name = codes "a" ++ replicate 31 0;
  size = 2;
  offset = 0;
  used = 1;
  padding = 0 ∷ 0 ∷ 0 ∷ [];
}

abbrev pub vacant : FileEntry
vacant = record { name = replicate 32 0; size = 0; offset = 0; used = 0; padding = 0 ∷ 0 ∷ 0 ∷ [] }

abbrev pub fresh_drive : Drive
fresh_drive = record {
  head = 0;
  count = 0;
  lo = 0;
  mid = 0;
  hi = 0;
  phase = idle;
  sectors = λ l i. 0;
}

abbrev pub saved : System Drive
saved = record {
  dev = fresh_drive;
  console = [];
  ata = record { drives = []; drive_count = pos 1; selected_drive = pos 0 };
  fs = record {
    header = record { magic = szymfs_magic; file_count = 1; files = note ∷ replicate 31 vacant };
    bytes = λ i. if i == 0 then b'h' else if i == 1 then b'i' else 0;
    initialized = true;
    persistent = true;
    drive_io_base = 0x1F0;
    drive_num = 0;
    drive_selected = true;
  };
}

-- Memory after the start holds anything.
abbrev pub restarted : System Drive
restarted = record {
  dev = (fs_save_to_disk prompt_ports [] saved).dev;
  console = [];
  ata = record { drives = []; drive_count = pos 1; selected_drive = pos 0 };
  fs = record {
    header = record { magic = 7; file_count = 3; files = replicate 32 note };
    bytes = λ i. i;
    initialized = false;
    persistent = false;
    drive_io_base = 0x1F0;
    drive_num = 0;
    drive_selected = true;
  };
}

vacant-valid : (n slot : ℕ) → FilesAreValid slot (replicate n vacant)
unfolding replicate name_text text_of
vacant-valid zero slot = tt
vacant-valid (suc n) slot = (
  record {
    name_size = length-replicate {A = ℕ} 32 0;
    terminated = refl;
    size_fits = omega arith;
    placed = inl refl;
  },
  vacant-valid n (slot + 1),
)

vacant-distinct : (n : ℕ) → AreDistinct (replicate n vacant)
unfolding replicate
vacant-distinct zero = tt
vacant-distinct (suc n) = (inl refl, vacant-distinct n)

vacant-holds : (n : ℕ) (t : List ℕ) → any_holds t (replicate n vacant) ≡ false
unfolding replicate any_holds holds
vacant-holds zero t = refl
vacant-holds (suc n) t = vacant-holds n t

vacant-count : (n : ℕ) → count_used (replicate n vacant) ≡ 0
unfolding replicate count_used
vacant-count zero = refl
vacant-count (suc n) = omega (arith, vacant-count n)

vacant-view : (n : ℕ) (b : ℕ → ℕ) (t : List ℕ) → view_files b (replicate n vacant) t ≡ none
unfolding replicate view_files holds
vacant-view zero b t = refl
vacant-view (suc n) b t = vacant-view n b t

vacant-AllFit : (n : ℕ) → AllFit (replicate n vacant)
unfolding replicate
vacant-AllFit zero = tt
vacant-AllFit (suc n) = (
  record {
    name_size = length-replicate {A = ℕ} 32 0;
    size_fits = omega arith;
    offset_fits = omega arith;
    used_fits = omega arith;
    padding_size = refl;
  },
  vacant-AllFit n,
)

abbrev pub files : Files
files = (codes "a", codes "hi") ∷ []

pub saved-Represents : Represents saved files
unfolding view view_files holds count_used find name_text text_of any_holds replicate slice
saved-Represents = record {
  valid = record {
    files_size = omega (arith, length-replicate {A = FileEntry} 31 vacant);
    files_valid = (
      record { name_size = refl; terminated = refl; size_fits = omega arith; placed = inr refl },
      vacant-valid 31 1,
    );
    distinct = (inr (vacant-holds 31 (codes "a")), vacant-distinct 31);
    counted = omega (arith, vacant-count 31);
    magic_right = refl;
  };
  ready = refl;
  same = λ u. ground (arith, vacant-view 31 saved.fs.bytes u);
  number = omega (arith, vacant-count 31);
  names_differ = (refl, tt);
}

saved-HeaderFits : HeaderFits saved.fs.header
unfolding replicate
saved-HeaderFits = record {
  magic_fits = omega arith;
  count_fits = omega arith;
  files_size = omega (arith, length-replicate {A = FileEntry} 31 vacant);
  files_fit = (
    record {
      name_size = refl;
      size_fits = omega arith;
      offset_fits = omega arith;
      used_fits = omega arith;
      padding_size = refl;
    },
    vacant-AllFit 31,
  );
}

abbrev pub all_bytes : List ℕ → Bool
all_bytes [] = true
all_bytes (x ∷ xs) = ltb x 256 && all_bytes xs

pub all_bytes-AreBytes : (xs : List ℕ) → all_bytes xs ≡ true → AreBytes xs
all_bytes-AreBytes [] h j = omega arith
all_bytes-AreBytes (x ∷ xs) h zero = ground arith
all_bytes-AreBytes (x ∷ xs) h (suc j) = all_bytes-AreBytes xs (ground arith) j

saved_bytes : all_bytes (encode_header saved.fs.header ++ []) ≡ true
unfolding encode_header encode_entries encode_entry le32 replicate
saved_bytes = refl

saved-CanSave : CanSave prompt_disk [] saved
unfolding disk_available ata_is_selected prompt_disk
saved-CanSave = record {
  mounted = record { selected = refl; base = refl; number = refl; at_rest = refl };
  available = refl;
  fits = saved-HeaderFits;
  header_bytes = all_bytes-AreBytes (encode_header saved.fs.header ++ []) saved_bytes;
  data_bytes = λ k. ground arith;
}

erased-AllFit : (n : ℕ) → AllFit (map empty_entry (replicate n note))
unfolding replicate
erased-AllFit zero = tt
erased-AllFit (suc n) = (
  record {
    name_size = refl;
    size_fits = omega arith;
    offset_fits = omega arith;
    used_fits = omega arith;
    padding_size = refl;
  },
  erased-AllFit n,
)

erased-length : (n : ℕ) → length (map empty_entry (replicate n note)) ≡ n
unfolding replicate
erased-length zero = refl
erased-length (suc n) = omega (arith, erased-length n)

pub restarted-Restarted : Restarted prompt_disk [] saved restarted
unfolding disk_available ata_is_selected prompt_disk
restarted-Restarted = record {
  device = refl;
  selected = refl;
  base = refl;
  number = refl;
  available = refl;
  fits = record {
    magic_fits = omega arith;
    count_fits = omega arith;
    files_size = erased-length 32;
    files_fit = erased-AllFit 32;
  };
}

fs_init-fs_save_to_disk_example : Represents (fs_init prompt_ports [] restarted) files
fs_init-fs_save_to_disk_example =
    fs_init-fs_save_to_disk prompt_disk [] [] saved restarted files saved-Represents saved-CanSave
      restarted-Restarted
