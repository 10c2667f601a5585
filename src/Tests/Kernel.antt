-- ===== src/Tests/Kernel.antt =====
-- The start of the kernel, kernel/kernel.c, on a machine without drives.
use szym_os_kernel.Prelude.{
  ℕ, ◌≡◌, refl, some, List, [], ◌∷◌, ◌++◌, arith, length, length-replicate, replicate, ◌==◌, pos,
  negsuc, if◌then◌else◌,
}
use szym_os_kernel.Ports.{Ports}
use szym_os_kernel.System.{System}
use szym_os_kernel.Terminal.Screen.{Screen, terminal_initialize, update_cursor, enable_cursor}
use szym_os_kernel.Memory.{MultibootInfo}
use szym_os_kernel.Keyboard.{
  initial, keyboard_init, data_port, status_port, keyboard_haskey, drain, character, on_scancode,
}
use szym_os_kernel.Keyboard.Stream.{decode}
use szym_os_kernel.Keyboard.Wait.{Controller}
use szym_os_kernel.Keyboard.Queued.{Queued}
use szym_os_kernel.Ata.State.{AtaDevice}
use szym_os_kernel.Ata.Drives.{ata_init}
use szym_os_kernel.Ata.Identify.{ata_detect_drives, probe, ata_identify}
use szym_os_kernel.Ata.Wait.{ata_400ns_delay}
use szym_os_kernel.Shell.Run.{Shell, waits}
use szym_os_kernel.Shell.Session.{Serves, files_after, transcript, typed_lines}
use szym_os_kernel.Kernel.Main.{
  Rounds, first_files, start_drivers, kernel_main, multiboot_magic, first_screen, announced,
  with_memory, banner, loaded_lines, subsystem_lines, multiboot_lines,
}
use szym_os_kernel.Kernel.Readme.{Greets, first_files-Greets}
use szym_os_kernel.Kernel.Files.{first_start}
use szym_os_kernel.Kernel.Drivers.{Loaded, driver_lines, start_drivers-Loaded}
use szym_os_kernel.Kernel.Session.{greeting, kernel_main-FirstSession}
use szym_os_kernel.Tests.Filesystem.{raw, table, silent, booted, booted-Represents}
use szym_os_kernel.Tests.Keyboard.{first, others, is_waiting}
use szym_os_kernel.Tests.Session.{lines, lines-AreEntries, scancodes, last_key}
use szym_os_kernel.Tests.Shell.{around, empty_line}
use szym_os_kernel.Tests.Ata.{unknown}

-- What the controller holds, and the keys that are typed while the second channel is probed.
pub record Desk : Type 0 where
  pub held : List ℕ
  pub coming : List ℕ

-- Both channels answer 0: they have no drives.
abbrev read_desk : ℕ → Desk → ℕ × Desk
read_desk port d =
    if port == data_port
    then (first d.held, record d { held = others d.held })
    else if port == status_port
    then (is_waiting d.held, d)
    else if port == 0x177
    then (0, record { held = d.held ++ d.coming; coming = [] })
    else (0, d)

abbrev desk_ports : Ports Desk
desk_ports = record {
  inb = read_desk;
  inw = λ port d. (0, d);
  outb = λ port value d. d;
  outw = λ port value d. d;
}

unfoldable desk_law : Controller desk_ports
desk_law = record {
  queue = λ d. d.held;
  status_keeps = λ d. refl;
  status_empty = λ d e. rw e;
  status_ready = λ d s ss e. rw e;
  reads_first = λ d s ss e. (rw e, rw e);
}

-- A space, and the lines of the session.
abbrev typed_later : List ℕ
typed_later = 0x39 ∷ scancodes

abbrev off : Shell Desk
off = record {
  keyboard = initial;
  line = empty_line;
  system = record {
    dev = record { held = 0x23 ∷ 0xA3 ∷ []; coming = typed_later };
    console = [];
    ata = record { drives = replicate 4 unknown; drive_count = pos 0; selected_drive = pos 0 };
    fs = raw.fs;
  };
}

abbrev dark : Screen Desk
dark = record { cells = λ i. 0; row = 0; column = 0; color = 0; dev = off.system.dev }

abbrev counts : Rounds
counts = record { drained = 3; menus = 1; choices = 1; polls = 20; characters = 17 }

abbrev no_info : MultibootInfo
no_info = record { flags = 0; mem_lower = 0; mem_upper = 0 }

abbrev on : Shell Desk
on = record off {
  keyboard = initial;
  system = record {
    dev = record { held = typed_later; coming = [] };
    console = ((banner ++ multiboot_lines multiboot_magic 0) ++ subsystem_lines) ++ loaded_lines;
    ata = record {
      drives = record unknown { io_base = 0x170; drive = 1 } ∷ replicate 3 unknown;
      drive_count = pos 0;
      selected_drive = negsuc 0;
    };
    fs = raw.fs;
  };
}

begins :
    start_drivers desk_ports
      (with_memory 0 no_info around)
      counts
      multiboot_magic
      0
      (announced desk_ports dark off)
    ≡ some on
unfolding start_drivers keyboard_init drain keyboard_haskey ata_detect_drives probe ata_identify
    ata_init terminal_initialize update_cursor enable_cursor replicate ata_400ns_delay
begins = refl

characters : counts.characters ≡ length (typed_lines lines)
unfolding typed_lines
characters = refl

held-first : Controller.queue desk_law (first_screen desk_ports dark off).dev ≡ 0x23 ∷ 0xA3 ∷ []
unfolding desk_law terminal_initialize update_cursor enable_cursor
held-first = refl

on-Queued :
    Queued desk_ports desk_law 20 last_key
      (b' ' ∷ typed_lines lines ++ [])
      on.keyboard
      on.system.dev
unfolding desk_law decode on_scancode character replicate typed_lines
on-Queued = record { types = refl; fewer = omega arith }

kernel_main-FirstSession_example :
    (sh' : Shell Desk) × (kernel_main desk_ports around counts multiboot_magic 0 no_info dark off
      ≡ some (first_screen desk_ports dark off, waits sh'))
    × Serves sh'.system (files_after lines first_start)
    × (sh'.system.console
        ≡ off.system.console
          ++ (banner
              ++ (driver_lines multiboot_magic 0 ++ (greeting ++ transcript lines first_start))))
    × Queued desk_ports desk_law 20 last_key [] sh'.keyboard sh'.system.dev
kernel_main-FirstSession_example =
    kernel_main-FirstSession desk_ports desk_law around (length-replicate {A = ℕ} 32 7) counts
      last_key 0 no_info dark off on 0 b' ' lines [] refl characters
      (length-replicate {A = AtaDevice} 4 unknown) table (length-replicate {A = ℕ} 256 0)
      (rw held-first (omega arith)) begins refl lines-AreEntries on-Queued

start_drivers-Loaded_example :
    (sh' : Shell Desk) × (start_drivers desk_ports around counts multiboot_magic 7 off ≡ some sh')
    × Loaded multiboot_magic 7 off sh'
unfolding desk_law
start_drivers-Loaded_example =
    start_drivers-Loaded desk_ports desk_law around counts multiboot_magic 7 off
      (length-replicate {A = AtaDevice} 4 unknown) (omega arith)

first_files-Greets_example :
    (s' : System (Unit {0})) × (first_files silent around counts booted ≡ some s')
    × Greets silent around counts booted [] booted-Represents s'
first_files-Greets_example = first_files-Greets silent around counts booted [] booted-Represents
