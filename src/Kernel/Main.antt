-- ===== src/Kernel/Main.antt =====
-- `kernel_main` of kernel/kernel.c: the start of the kernel as the composition of its parts.
use szym_os_kernel.Prelude.{ℕ, not, Option, some, List, [], ◌∷◌, ◌++◌, ◌==◌, if◌then◌else◌, ◌>>=◌}
use szym_os_kernel.CString.{codes, literal}
use szym_os_kernel.Ports.{Ports}
use szym_os_kernel.Console.{
  Call, uint, str, foreground, write, format, notice, light_green, light_cyan, yellow, white,
  print_boot_art,
}
use szym_os_kernel.System.{System, say, with_dev}
use szym_os_kernel.Terminal.Screen.{Screen, terminal_initialize}
use szym_os_kernel.Memory.{MultibootInfo, memory_init}
use szym_os_kernel.Keyboard.{keyboard_init}
use szym_os_kernel.Ata.Drives.{ata_init}
use szym_os_kernel.Ata.Identify.{ata_detect_drives}
use szym_os_kernel.Selector.{disk_selector_run}
use szym_os_kernel.Filesystem.Persist.{fs_init}
use szym_os_kernel.Filesystem.Ops.{fs_create_file, fs_file_exists}
use szym_os_kernel.Kernel.{Outcome, returns, halts, kernel_panic}
use szym_os_kernel.Shell.Dispatch.{Surroundings}
use szym_os_kernel.Shell.Run.{Shell, Turn, stops, shell_init, shell_run}

-- `SZYMOS_VERSION`, `SZYMOS_CODENAME` and `SZYMOS_YEAR`
abbrev pub szymos_version : List ℕ
szymos_version = codes "0.1.3"

abbrev pub szymos_codename : List ℕ
szymos_codename = codes "Initium"

abbrev pub szymos_year : List ℕ
szymos_year = codes "2026"

abbrev pub banner : List Call
banner =
    print_boot_art
    ++ (foreground light_green
        ∷ format "SzymOS Kernel v%s (%s)\n" (str szymos_version ∷ str szymos_codename ∷ [])
        ∷ format "Copyright (c) %s\n\n" (str szymos_year ∷ [])
        ∷ foreground white
        ∷ [])

abbrev pub multiboot_magic : ℕ
multiboot_magic = 0x2BADB002

abbrev pub multiboot_lines : ℕ → ℕ → List Call
multiboot_lines magic addr =
    format "Multiboot magic: 0x%x\n" (uint magic ∷ [])
    ∷ format "Multiboot info at: 0x%x\n\n" (uint addr ∷ [])
    ∷ []

abbrev pub subsystem_lines : List Call
subsystem_lines =
    foreground yellow
    ∷ write "[OK] Terminal initialized\n"
    ∷ write "[OK] Memory subsystem initialized\n"
    ∷ write "[OK] Keyboard driver loaded\n"
    ∷ write "[OK] I/O subsystem ready\n"
    ∷ []

abbrev pub loaded_lines : List Call
loaded_lines =
    write "[OK] ATA driver initialized\n"
    ∷ notice light_green "\nSzymOS kernel loaded successfully!\n"

abbrev pub readme_name : List ℕ
readme_name = codes "README.txt"

-- The text of the file of the first start.
unfoldable pub readme : List ℕ
readme =
    codes "SzymOS is a custom operating system kernel built from scratch, focused on being fast, "
    ++ (codes "clean, and extensible. This project is aimed at building a serious low-level system "
        ++ (codes "with real functionality, while keeping the codebase approachable enough for "
            ++ (codes
                  "contributors to extend and improve. | Core Focus: Performance and simplicity. "
                ++ (codes "Clean, understandable architecture. Real hardware support. Expandable "
                    ++ (codes
                          "system design. | Features: Bootable on real x86 hardware. Persistent "
                        ++ (codes "filesystem (SzymFS). Interactive shell with 16+ commands. CPU, "
                            ++ (codes "memory, and disk detection VGA text-mode interface (80x25). "
                                ++ (codes
                                      "Keyboard driver (QWERTY + shift support). File operations "
                                    ++ codes "(create, read, delete)."))))))))

abbrev pub readme_created : List Call
readme_created = notice light_cyan "[OK] README.txt created\n"

-- What the loops are given: the bytes that `keyboard_init` empties, the rounds of the menu, the
-- characters of a round, the polls of `keyboard_getchar`, and the characters of the shell.
pub record Rounds : Type 0 where
  pub drained : ℕ
  pub menus : ℕ
  pub choices : ℕ
  pub polls : ℕ
  pub characters : ℕ

module _ {Device : Type 0} (ports : Ports Device) (e : Surroundings) (n : Rounds) where
  -- The drivers, from the check of the magic number on.
  unfoldable pub start_drivers : ℕ → ℕ → Shell Device → Option (Shell Device)
  start_drivers magic addr sh =
      let s1 = say (multiboot_lines magic addr) sh.system in
      keyboard_init ports n.drained s1.dev >>= λ k.
      let s2 = say subsystem_lines (with_dev k.1 s1) in
      ata_detect_drives ports (ata_init s2.ata) s2.dev >>= λ r.
      let s3 : System Device = record s2 { ata = r.1; dev = r.2 } in
      some (record sh { keyboard = k.0; system = say loaded_lines s3 })

  -- The file of the first start.
  unfoldable pub first_files : System Device → Option (System Device)
  unfolding readme
  first_files s = fs_file_exists (literal "README.txt") s.fs >>= λ there.
      if there
      then some s
      else (fs_create_file ports e.behind (literal "README.txt") (readme ++ 0 ∷ []) s >>= λ r.
          some (say readme_created r.1))

  -- The choice of a drive and the file system on it.
  unfoldable pub start_files : Shell Device → Option (Shell Device)
  unfolding first_files
  start_files sh = disk_selector_run ports n.menus n.choices n.polls sh.keyboard sh.system >>= λ r.
      first_files (fs_init ports e.behind r.1) >>= λ s.
      some (record sh { keyboard = r.0; system = s })

-- The screen as `terminal_initialize` leaves it, `screen` being the one before.
abbrev pub first_screen :
    {Device : Type 0} → Ports Device → Screen Device → Shell Device → Screen Device
first_screen ports screen sh = terminal_initialize ports (record screen { dev = sh.system.dev })

-- The kernel behind the banner.
abbrev pub announced :
    {Device : Type 0} → Ports Device → Screen Device → Shell Device → Shell Device
announced ports screen sh = record sh {
  system = say banner (with_dev (first_screen ports screen sh).dev sh.system);
}

-- The surroundings behind `memory_init`.
abbrev pub with_memory : ℕ → MultibootInfo → Surroundings → Surroundings
with_memory addr mbi e = record e { mem_info = memory_init addr mbi e.mem_info }

-- The start behind the check of the magic number, up to the shell: what waits for a character behind
-- those that the loop is given, or the machine that a command has halted. The loop of `shell_run` does
-- not end otherwise, so the panic behind it is not reached.
unfoldable pub run_kernel :
    {Device : Type 0}
    → Ports Device
    → Surroundings
    → Rounds
    → ℕ
    → ℕ
    → Shell Device
    → Option (Turn Device)
unfolding start_drivers start_files
run_kernel ports e n magic addr sh = start_drivers ports e n magic addr sh >>= λ sh2.
    start_files ports e n sh2 >>= λ sh3. shell_run ports e n.characters n.polls (shell_init sh3)

-- The check of the magic number, and what follows it; a panic stops the machine.
abbrev pub checked :
    {Device : Type 0}
    → Ports Device
    → Surroundings
    → Rounds
    → ℕ
    → ℕ
    → Shell Device
    → Outcome Device
    → Option (Turn Device)
checked ports e n magic addr sh (halts s) = some (stops s)
checked ports e n magic addr sh (returns s) =
    run_kernel ports e n magic addr (record sh { system = s })

-- The whole start: the screen as `terminal_initialize` leaves it, and the shell or the halted machine.
-- `screen` is the screen before, and `mbi` lies at `addr`.
unfoldable pub kernel_main :
    {Device : Type 0}
    → Ports Device
    → Surroundings
    → Rounds
    → ℕ
    → ℕ
    → MultibootInfo
    → Screen Device
    → Shell Device
    → Option (Screen Device × Turn Device)
unfolding run_kernel
kernel_main ports e n magic addr mbi screen sh =
    let screen' = first_screen ports screen sh in
    let sh1 = announced ports screen sh in
    let e1 = with_memory addr mbi e in
    let check =
      if not (magic == multiboot_magic)
      then kernel_panic (codes "Invalid multiboot magic number!") sh1.system
      else returns sh1.system in
    checked ports e1 n magic addr sh1 check >>= λ t. some (screen', t)
