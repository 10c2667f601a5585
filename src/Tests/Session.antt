-- ===== src/Tests/Session.antt =====
-- A user's session with kernel/shell.c, from the scancodes of its keys.
use szym_os_kernel.Prelude.{
  ℕ, ◌≡◌, refl, false, some, List, [], ◌∷◌, ◌++◌, arith, length, length-replicate, replicate, Bool,
  true, not, ◌&&◌, ◌||◌, ◌==◌, ap,
}
use szym_os_kernel.CString.{codes}
use szym_os_kernel.System.{System}
use szym_os_kernel.Keyboard.{Keyboard, character, on_scancode}
use szym_os_kernel.Keyboard.Stream.{decode}
use szym_os_kernel.Ata.Drives.{ata_is_selected}
use szym_os_kernel.Filesystem.Persist.{disk_available, fs_init}
use szym_os_kernel.Filesystem.Refine.Boot.{fs_init-Represents}
use szym_os_kernel.Filesystem.Refine.RamOnly.{fs_init-Prints}
use szym_os_kernel.Filesystem.Refine.Session.{Represents}
use szym_os_kernel.Shell.Run.{Shell, waits, run_loop}
use szym_os_kernel.Keyboard.Queued.{Queued}
use szym_os_kernel.Shell.Stream.{ArePrinted}
use szym_os_kernel.Shell.Session.{Entry, cat, put, Serves, AreEntries, typed_lines}
use szym_os_kernel.Shell.Session.Typed.{Ends, run_loop-Ends}
use szym_os_kernel.Tests.Filesystem.{raw, table, no_drives}
use szym_os_kernel.Tests.Keyboard.{queue_ports, queue_law, idle}
use szym_os_kernel.Tests.Shell.{around, empty_line, empty_line-Shows}

-- `write a hi` and Enter, `cat a` and Enter; the keys are released as far as a key follows itself.
abbrev pub scancodes : List ℕ
scancodes =
    0x11 ∷ 0x13 ∷ 0x17 ∷ 0x14 ∷ 0x12 ∷ 0x39 ∷ 0x1E ∷ 0x39 ∷ 0x23 ∷ 0x17 ∷ 0x1C ∷ 0x2E ∷ 0x1E ∷ 0x14
    ∷ 0x39 ∷ 0x1E ∷ 0x1C ∷ []

abbrev pub lines : List Entry
lines = put (codes "a") (codes "hi") ∷ cat (codes "a") ∷ []

abbrev pub last_key : Keyboard
last_key = record { shift_pressed = false; last_scancode = 0x1C }

abbrev unmounted : System (List ℕ)
unmounted = record { dev = scancodes; console = []; ata = no_drives; fs = raw.fs }

abbrev mounted : System (List ℕ)
mounted = fs_init queue_ports [] unmounted

mounted-Represents : Represents mounted []
unfolding ata_is_selected disk_available
mounted-Represents = fs_init-Represents queue_ports [] unmounted table refl

abbrev ready : Shell (List ℕ)
ready = record { keyboard = idle; line = empty_line; system = mounted }

abbrev is_printed : ℕ → Bool
is_printed c = not (c == 0 || c == 8 || c == 9 || c == 10)

abbrev pub are_printed : List ℕ → Bool
are_printed [] = true
are_printed (c ∷ cs) = is_printed c && are_printed cs

pub are_printed-ArePrinted : (cs : List ℕ) → are_printed cs ≡ true → ArePrinted cs
are_printed-ArePrinted [] h = tt
are_printed-ArePrinted (c ∷ cs) h =
    let rest : are_printed cs ≡ true = ground (arith, h) in
    (
      ground (arith, h),
      ground (arith, h),
      ground (arith, h),
      ground (arith, h),
      are_printed-ArePrinted cs rest,
    )

pub lines-AreEntries : AreEntries lines
lines-AreEntries = (
  ((refl, refl, tt), omega arith, omega arith, (refl, (refl, tt)), refl),
  are_printed-ArePrinted (codes "write a hi") refl,
  omega arith,
  ((refl, tt), are_printed-ArePrinted (codes "cat a") refl, omega arith, tt),
)

mounted-dev : mounted.dev ≡ scancodes
unfolding disk_available ata_is_selected
mounted-dev = (fs_init-Prints queue_ports [] unmounted refl).dev

pub types-lines : decode scancodes idle ≡ (typed_lines lines ++ [], last_key)
unfolding decode on_scancode character replicate typed_lines
types-lines = refl

ready-Serves : Serves mounted []
unfolding disk_available
ready-Serves = record {
  holds = mounted-Represents;
  plain = tt;
  alone = rw (ap (λ a. ata_is_selected a) (fs_init-Prints queue_ports [] unmounted refl).ata) refl;
}

ready-Queued : Queued queue_ports queue_law 20 last_key (typed_lines lines ++ []) idle mounted.dev
unfolding queue_law
ready-Queued = record { types = rw mounted-dev types-lines; fewer = rw mounted-dev (omega arith) }

run_loop-Ends_example :
    (sh' : Shell (List ℕ)) × (run_loop queue_ports around (length (typed_lines lines)) 20 ready
      ≡ some (waits sh'))
    × Ends queue_ports queue_law around
        (length-replicate {A = ℕ} 32 7)
        20
        last_key
        lines
        []
        []
        ready
        sh'
run_loop-Ends_example =
    run_loop-Ends queue_ports queue_law around (length-replicate {A = ℕ} 32 7) 20 last_key lines []
      [] ready lines-AreEntries empty_line-Shows ready-Serves ready-Queued
