-- ===== src/Kernel/Drivers.antt =====
-- The drivers that `kernel_main` of kernel/kernel.c starts.
use szym_os_kernel.Prelude.{
  ℕ, ◌≤◌, ◌<◌, ◌≡◌, refl, ◌∙◌, some, List, [], ◌∷◌, ◌++◌, arith, pos, bind_some, length, map, false,
}
use mathlib.Core.List.{append_assoc}
use szym_os_kernel.Ports.{Ports}
use szym_os_kernel.Console.{Call}
use szym_os_kernel.System.{say}
use szym_os_kernel.Keyboard.{initial}
use szym_os_kernel.Keyboard.Wait.{Controller, keyboard_init-empties}
use szym_os_kernel.Ata.State.{AtaDevice, max_drives}
use szym_os_kernel.Ata.Drives.{cleared, ata_init, ata_is_selected}
use szym_os_kernel.Ata.Detect.{AreDetected, ata_detect_drives-Detects}
use szym_os_kernel.Filesystem.Persist.{disk_available}
use szym_os_kernel.Shell.Dispatch.{Surroundings}
use szym_os_kernel.Shell.Run.{Shell}
use szym_os_kernel.Kernel.Main.{
  Rounds, start_drivers, multiboot_lines, subsystem_lines, loaded_lines,
}

length-ata_init : (drives : List AtaDevice) → length (map cleared drives) ≡ length drives
length-ata_init [] = refl
length-ata_init (a ∷ drives) = omega (arith, length-ata_init drives)

-- What the drivers print.
abbrev pub driver_lines : ℕ → ℕ → List Call
driver_lines magic addr = multiboot_lines magic addr ++ (subsystem_lines ++ loaded_lines)

-- The kernel in front of the menu.
pub record Loaded {Device : Type 0} (magic addr : ℕ) (sh sh' : Shell Device) : Type 0 where
  pub number : ℕ
  pub bound : number ≤ max_drives
  pub count : sh'.system.ata.drive_count ≡ pos number
  pub answered : AreDetected number sh'.system.ata.drives
  pub unselected : disk_available sh'.system ≡ false
  pub keyboard : sh'.keyboard ≡ initial
  pub line : sh'.line ≡ sh.line
  pub fs : sh'.system.fs ≡ sh.system.fs
  pub console : sh'.system.console ≡ sh.system.console ++ driver_lines magic addr

module _ {Device : Type 0} (ports : Ports Device) (law : Controller ports) (e : Surroundings)
    (n : Rounds) where
  open law use {queue}

  -- If the table has four entries, and the keyboard's controller behaves as documented and holds fewer
  -- scancodes than `keyboard_init` is given rounds, then the kernel reaches the menu whatever the
  -- drives answer: the keyboard is in its first state, the table holds the drives that have
  -- answered, no drive is selected, the line and the file system's variables are as they were, and
  -- exactly the lines of the start are printed.
  pub start_drivers-Loaded :
      (magic addr : ℕ) (sh : Shell Device)
      → length sh.system.ata.drives ≡ max_drives
      → length (queue sh.system.dev) < n.drained
      → (sh' : Shell Device) × (start_drivers ports e n magic addr sh ≡ some sh')
        × Loaded magic addr sh sh'
  unfolding start_drivers disk_available ata_is_selected ata_init
  start_drivers-Loaded magic addr sh size small =
      let s1 = say (multiboot_lines magic addr) sh.system in
      let (d, empties, _) = keyboard_init-empties ports law n.drained sh.system.dev small in
      let a = ata_init sh.system.ata in
      let (r, detects, known) =
        ata_detect_drives-Detects ports a d (length-ata_init sh.system.ata.drives ∙ size) in
      let sh' : Shell Device = record {
        keyboard = initial;
        line = sh.line;
        system = record {
          dev = r.2;
          console =
              ((sh.system.console ++ multiboot_lines magic addr) ++ subsystem_lines)
              ++ loaded_lines;
          ata = r.1;
          fs = sh.system.fs;
        };
      } in
      (
        sh',
        bind_some _ empties ∙ bind_some _ detects,
        record {
          number = known.number;
          bound = known.bound;
          count = known.kept;
          answered = known.answered;
          unselected = rw known.selection refl;
          keyboard = refl;
          line = refl;
          fs = refl;
          console =
              append_assoc (sh.system.console ++ multiboot_lines magic addr) subsystem_lines
                loaded_lines
              ∙ append_assoc sh.system.console (multiboot_lines magic addr)
                  (subsystem_lines ++ loaded_lines);
        },
      )
