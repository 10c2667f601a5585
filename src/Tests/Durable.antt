-- ===== src/Tests/Durable.antt =====
-- Calls of kernel/filesystem.c on a drive, and a machine that starts again behind them.
use szym_os_kernel.Prelude.{
  ℕ, zero, suc, ◌%◌, ◌+◌, ◌≡◌, get_or, refl, List, [], ◌∷◌, arith, replicate, length-replicate,
}
use szym_os_kernel.Prelude.Index.{AreBytes}
use szym_os_kernel.CString.{codes, literal, text_of}
use szym_os_kernel.System.{System, with_dev}
use szym_os_kernel.Ata.Disk.{Disk, Drive}
use szym_os_kernel.Ata.Drives.{ata_is_selected}
use szym_os_kernel.Filesystem.State.{FileEntry}
use szym_os_kernel.Filesystem.Persist.{disk_available, fs_save_to_disk, fs_init}
use szym_os_kernel.Filesystem.Persist.Frame.{fs_save_to_disk-KeepsFiles}
use szym_os_kernel.Filesystem.Persist.Bytes.{AllStored, HeaderIsStored-Fits, encode_header-AreBytes}
use szym_os_kernel.Filesystem.Persist.Behind.{fs_save_to_disk-behind}
use szym_os_kernel.Filesystem.Refine.Session.{
  Request, create, delete, says_create, says_delete, AllSpoken, quiet, spoken, ask_all, Represents,
}
use szym_os_kernel.Filesystem.Refine.Reboot.{Restarts, Represents-same}
use szym_os_kernel.Filesystem.Refine.Durable.{Ready, IsDurable, fs_save_to_disk-IsDurable}
use szym_os_kernel.Filesystem.Refine.Durable.History.{
  History, AreByteRequests, files_left, fs_init-History,
}
use szym_os_kernel.Filesystem.Refine.Durable.Blank.{fs_init-IsDurable}
use szym_os_kernel.Tests.Disk.{prompt_ports, prompt_disk}
use szym_os_kernel.Tests.Reboot.{
  note, fresh_drive, vacant, saved, restarted, files, saved-Represents, restarted-Restarted,
  all_bytes-AreBytes,
}

no_bytes : AreBytes []
no_bytes j = omega arith

vacant-AllStored : (n : ℕ) → AllStored (replicate n vacant)
unfolding replicate
vacant-AllStored zero = tt
vacant-AllStored (suc n) = (
  record {
    fits = record {
      name_size = length-replicate {A = ℕ} 32 0;
      size_fits = omega arith;
      offset_fits = omega arith;
      used_fits = omega arith;
      padding_size = refl;
    };
    name_bytes = all_bytes-AreBytes vacant.name refl;
    padding_bytes = all_bytes-AreBytes (0 ∷ 0 ∷ 0 ∷ []) refl;
  },
  vacant-AllStored n,
)

saved-Ready : Ready prompt_disk [] no_bytes saved
unfolding disk_available ata_is_selected prompt_disk replicate
saved-Ready = record {
  mounted = record { selected = refl; base = refl; number = refl; at_rest = refl };
  available = refl;
  header = record {
    magic_fits = omega arith;
    count_fits = omega arith;
    files_size = omega (arith, length-replicate {A = FileEntry} 31 vacant);
    entries = (
      record {
        fits = record {
          name_size = refl;
          size_fits = omega arith;
          offset_fits = omega arith;
          used_fits = omega arith;
          padding_size = refl;
        };
        name_bytes = all_bytes-AreBytes note.name refl;
        padding_bytes = all_bytes-AreBytes (0 ∷ 0 ∷ 0 ∷ []) refl;
      },
      vacant-AllStored 31,
    );
  };
  data_bytes = λ k. ground arith;
}

abbrev on_disk : System Drive
on_disk = fs_save_to_disk prompt_ports [] saved

on_disk-Represents : Represents on_disk files
on_disk-Represents =
    let kept = fs_save_to_disk-KeepsFiles prompt_ports [] saved in
    Represents-same saved on_disk files kept.header (λ k p. rw kept.bytes refl) kept.initialized
      saved-Represents

-- A second file is created, and the first one deleted.
abbrev wishes : List Request
wishes = create (literal "b") (literal "hello") ∷ delete (literal "a") ∷ []

wishes-spoken : AllSpoken wishes
unfolding text_of
wishes-spoken =
    spoken (says_create (codes "b") (codes "hello") refl (omega arith) refl)
      (spoken (says_delete (codes "a") refl) quiet)

wishes-AreByteRequests : AreByteRequests wishes
wishes-AreByteRequests =
    (all_bytes-AreBytes (literal "b") refl, all_bytes-AreBytes (literal "hello") refl, tt)

restarted-Restarts : Restarts prompt_disk [] restarted
restarted-Restarts =
    let r = restarted-Restarted in
    record {
      selected = r.selected;
      base = r.base;
      number = r.number;
      available = r.available;
      fits = r.fits;
    }

fs_init-History_example :
    (s' : System Drive) × History prompt_ports [] wishes on_disk (ask_all wishes-spoken files) s'
    × Represents
        (fs_init prompt_ports [] (with_dev s'.dev restarted))
        (files_left wishes-spoken files)
fs_init-History_example =
    fs_init-History prompt_disk [] no_bytes wishes-spoken [] on_disk restarted files
      wishes-AreByteRequests on_disk-Represents
      (fs_save_to_disk-IsDurable prompt_disk [] no_bytes saved saved-Ready) restarted-Restarts

-- A machine with anything in its memory that is given a drive of zeroes.
abbrev first_boot : System Drive
first_boot = record restarted {
  dev = fresh_drive;
  fs = record (restarted.fs) { bytes = λ i. i % 256 };
}

first_boot-Restarts : Restarts prompt_disk [] first_boot
unfolding disk_available
first_boot-Restarts =
    let r = restarted-Restarts in
    record {
      selected = r.selected;
      base = r.base;
      number = r.number;
      available = r.available;
      fits = r.fits;
    }

fs_init-IsDurable_example :
    Represents (fs_init prompt_ports [] first_boot) []
    × IsDurable prompt_disk [] no_bytes (fs_init prompt_ports [] first_boot)
unfolding prompt_disk
fs_init-IsDurable_example =
    fs_init-IsDurable prompt_disk [] no_bytes first_boot first_boot-Restarts refl (λ k. omega arith)
      (λ i j p q. refl)

fs_save_to_disk-behind_example :
    (Disk.drive_of prompt_disk
        (fs_save_to_disk prompt_ports (replicate 120 0xAB) saved).dev).sectors
      2050
      (392 + 7)
    ≡ get_or (replicate 120 0xAB) 7 0
unfolding replicate
fs_save_to_disk-behind_example =
    fs_save_to_disk-behind prompt_disk (replicate 120 0xAB) saved 7 saved-Ready.mounted
      saved-Ready.available (HeaderIsStored-Fits saved.fs.header saved-Ready.header)
      (encode_header-AreBytes saved.fs.header (replicate 120 0xAB) saved-Ready.header
        (all_bytes-AreBytes (replicate 120 0xAB) refl))
      saved-Ready.data_bytes (omega arith) (omega arith)
