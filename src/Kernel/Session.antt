-- ===== src/Kernel/Session.antt =====
-- From `kernel_main` of kernel/kernel.c to a user's session with the shell, on a machine without drives.
use szym_os_kernel.Prelude.{
  ℕ, suc, ◌<◌, ◌≡◌, refl, sym, ap, ◌∙◌, false, some, List, [], ◌∷◌, ◌++◌, arith, pos, eq_ℤ,
  eq_of_some, if_true, bind_some, length, length-set, ◌>>=◌,
}
use mathlib.Core.List.{append_assoc}
use szym_os_kernel.Ports.{Ports}
use szym_os_kernel.Console.{Call}
use szym_os_kernel.System.{System, say}
use szym_os_kernel.Terminal.Screen.{Screen}
use szym_os_kernel.Memory.{MultibootInfo}
use szym_os_kernel.Keyboard.{Keyboard}
use szym_os_kernel.Keyboard.Wait.{Controller}
use szym_os_kernel.Keyboard.Queued.{Queued}
use szym_os_kernel.Ata.State.{max_drives}
use szym_os_kernel.Ata.Drives.{ata_get_drive_count, ata_is_selected}
use szym_os_kernel.Filesystem.State.{max_filename}
use szym_os_kernel.Filesystem.Persist.{disk_available}
use szym_os_kernel.Filesystem.Refine.Boot.{IsTable}
use szym_os_kernel.Selector.{no_devices, menu_round, disk_selector_run}
use szym_os_kernel.Selector.Typing.{Untouched, get_char-types}
use szym_os_kernel.Shell.Line.{Line, Shows, max_command_length}
use szym_os_kernel.Shell.Screens.{shell_print_prompt, welcome}
use szym_os_kernel.Shell.Dispatch.{Surroundings}
use szym_os_kernel.Shell.Run.{Shell, waits, shell_init, shell_run, run_loop}
use szym_os_kernel.Shell.Session.{Entry, Serves, typed_lines, transcript, files_after, AreEntries}
use szym_os_kernel.Shell.Session.Typed.{Serves-same, run_loop-Ends}
use szym_os_kernel.Kernel.Main.{
  Rounds, start_drivers, start_files, run_kernel, kernel_main, banner, multiboot_magic,
  first_screen, announced, with_memory,
}
use szym_os_kernel.Kernel.Files.{first_start, started, start_files-Starts}
use szym_os_kernel.Kernel.Drivers.{Loaded, driver_lines, start_drivers-Loaded}

module _ {Device : Type 0} (ports : Ports Device) (law : Controller ports) (polls : ℕ)
    (last : Keyboard) where
  -- Without a drive the menu waits for any key.
  disk_selector_run-no_drives :
      (menus fuel key : ℕ) (more : List ℕ) (k : Keyboard) (s : System Device)
      → s.ata.drive_count ≡ pos 0
      → Queued ports law polls last (key ∷ more) k s.dev
      → (k' : Keyboard) × (s' : System Device) × (disk_selector_run ports (suc menus) fuel polls k s
          ≡ some (k', s'))
        × Untouched ports law polls last more s k' s'
        × (s'.console ≡ s.console ++ no_devices)
  unfolding disk_selector_run menu_round ata_get_drive_count
  disk_selector_run-no_drives menus fuel key more k s none_found q =
      let (k', s', got, u, printed) =
        get_char-types ports law polls last key more k (say no_devices s) q in
      (
        k',
        s',
        bind_some _ (if_true _ _ (ap (λ z. eq_ℤ z (pos 0)) none_found) ∙ bind_some _ got),
        record { ata = u.ata; fs = u.fs; queued = u.queued },
        printed,
      )

regroup :
    (a b c d x t : List Call)
    → ((((a ++ b) ++ c) ++ d) ++ x) ++ t ≡ a ++ ((b ++ (c ++ (d ++ x))) ++ t)
regroup a b c d x t = simp append_assoc refl

greeted :
    (a x1 x2 x3 b c d x t : List Call)
    → x1 ≡ a ++ b
    → x2 ≡ x1 ++ c
    → x3 ≡ ((x2 ++ d) ++ x) ++ t
    → x3 ≡ a ++ ((b ++ (c ++ (d ++ x))) ++ t)
greeted a x1 x2 x3 b c d x t p q r = rw (r, q, p) (regroup a b c d x t)

-- What stands on the screen between the menu and the first line.
abbrev pub greeting : List Call
greeting = no_devices ++ (started ++ (welcome ++ shell_print_prompt))

module _ {Device : Type 0} (ports : Ports Device) (law : Controller ports) (e : Surroundings)
    (room : length e.stack ≡ max_filename) (n : Rounds) (last : Keyboard) where
  -- The shell behind a session that starts at the menu.
  pub record FirstSession (xs : List Entry) (more : List ℕ) (sh sh' : Shell Device) : Type 0 where
    pub serves : Serves sh'.system (files_after xs first_start)
    pub line : Shows [] sh'.line
    pub console : sh'.system.console ≡ sh.system.console ++ (greeting ++ transcript xs first_start)
    pub queued : Queued ports law n.polls last more sh'.keyboard sh'.system.dev

  start_files-FirstSession :
      (menus key : ℕ) (xs : List Entry) (more : List ℕ) (sh : Shell Device)
      → n.menus ≡ suc menus
      → n.characters ≡ length (typed_lines xs)
      → sh.system.ata.drive_count ≡ pos 0
      → disk_available sh.system ≡ false
      → IsTable sh.system.fs.header.files
      → length sh.line.command_buffer ≡ max_command_length
      → AreEntries xs
      → Queued ports law n.polls last (key ∷ typed_lines xs ++ more) sh.keyboard sh.system.dev
      → (sh' : Shell Device) × ((start_files ports e n sh >>= λ sh3.
            shell_run ports e n.characters n.polls (shell_init sh3))
          ≡ some (waits sh'))
        × FirstSession xs more sh sh'
  unfolding shell_run shell_init disk_available
  start_files-FirstSession menus key xs more sh one enough none_found alone table size h q =
      let (k1, s1, chosen, u, printed) =
        disk_selector_run-no_drives ports law n.polls last menus n.choices key
          (typed_lines xs ++ more) sh.keyboard sh.system none_found q in
      let (sh2, starts, st) =
        start_files-Starts ports e n k1 s1 sh
          (ap (λ m. disk_selector_run ports m n.choices n.polls sh.keyboard sh.system) one ∙ chosen)
          (ap ata_is_selected u.ata ∙ alone) (rw u.fs table) in
      let sh3 : Shell Device = record sh2 {
        line = (shell_init sh2).line;
        system = say shell_print_prompt (say welcome sh2.system);
      } in
      let shows : Shows [] sh3.line = record {
        size =
            length-set sh2.line.command_buffer 0 0
            ∙ ap (λ (l : Line). length l.command_buffer) st.line
            ∙ size;
        index = refl;
        room = omega arith;
        text = refl;
        no_nul = tt;
      } in
      let queued : Queued ports law n.polls last (typed_lines xs ++ more) sh3.keyboard
          sh3.system.dev =
        rw (st.keyboard, st.prints.dev) u.queued in
      let (sh', runs, ends) =
        run_loop-Ends ports law e room n.polls last xs first_start more sh3 h shows
          (Serves-same refl refl st.serves) queued in
      (
        sh',
        bind_some _ starts ∙ (ap (λ m. run_loop ports e m n.polls sh3) enough ∙ runs),
        record {
          serves = ends.serves;
          line = ends.line;
          console =
              greeted sh.system.console s1.console sh2.system.console sh'.system.console no_devices
                started welcome shell_print_prompt (transcript xs first_start) printed
                st.prints.console ends.console;
          queued = ends.queued;
        },
      )

module _ {Device : Type 0} (ports : Ports Device) (law : Controller ports) (e : Surroundings)
    (room : length e.stack ≡ max_filename) (n : Rounds) (last : Keyboard) where
  -- A start of the kernel, up to a user's session, on a machine without drives. Let the boot loader's
  -- magic number be right, let the tables and the line have the sizes of the source and let the
  -- keyboard's controller behave as documented, with fewer scancodes left over than `keyboard_init` is
  -- given rounds. If the drivers' start finds no drive, and the controller holds behind it
  -- scancodes that type any character, for the menu, and then the lines of `cat`, `write` and `rm`
  -- commands, then `kernel_main` gets to the loop of the shell, takes the lines and waits for what follows. It
  -- has printed exactly the banner, the lines of the drivers, the greeting and the
  -- transcript of the session, and it holds the files that the commands make of the one file
  -- `README.txt`; the controller will type what follows. The shell is run for the
  -- characters of the lines, and `keyboard_getchar` more polls than there are scancodes.
  pub kernel_main-FirstSession :
      (addr : ℕ) (mbi : MultibootInfo) (screen : Screen Device) (sh sh2 : Shell Device)
      (menus key : ℕ) (xs : List Entry) (more : List ℕ)
      → n.menus ≡ suc menus
      → n.characters ≡ length (typed_lines xs)
      → length sh.system.ata.drives ≡ max_drives
      → IsTable sh.system.fs.header.files
      → length sh.line.command_buffer ≡ max_command_length
      → length (Controller.queue law (first_screen ports screen sh).dev) < n.drained
      → start_drivers ports
          (with_memory addr mbi e)
          n
          multiboot_magic
          addr
          (announced ports screen sh)
        ≡ some sh2
      → sh2.system.ata.drive_count ≡ pos 0
      → AreEntries xs
      → Queued ports law n.polls last (key ∷ typed_lines xs ++ more) sh2.keyboard sh2.system.dev
      → (sh' : Shell Device) × (kernel_main ports e n multiboot_magic addr mbi screen sh
          ≡ some (first_screen ports screen sh, waits sh'))
        × Serves sh'.system (files_after xs first_start)
        × (sh'.system.console
            ≡ sh.system.console
              ++ (banner
                  ++ (driver_lines multiboot_magic addr
                      ++ (greeting ++ transcript xs first_start))))
        × Queued ports law n.polls last more sh'.keyboard sh'.system.dev
  unfolding kernel_main run_kernel
  kernel_main-FirstSession addr mbi screen sh sh2 menus key xs more one enough drives table size
        small begins none_found h q =
      let e1 = with_memory addr mbi e in
      let (sh2', begins', known) =
        start_drivers-Loaded ports law e1 n multiboot_magic addr (announced ports screen sh) drives
          small in
      let same : sh2' ≡ sh2 = eq_of_some (sym begins' ∙ begins) in
      let l : Loaded multiboot_magic addr (announced ports screen sh) sh2 = rw (← same) known in
      let (sh', runs, f) =
        start_files-FirstSession ports law e1 room n last menus key xs more sh2 one enough
          none_found l.unselected (rw l.fs table)
          (ap (λ (l : Line). length l.command_buffer) l.line ∙ size) h q in
      (
        sh',
        bind_some _ (bind_some _ begins ∙ runs),
        f.serves,
        f.console
            ∙ (ap (λ (calls : List Call). calls ++ (greeting ++ transcript xs first_start))
                  l.console
                ∙ simp append_assoc refl),
        f.queued,
      )
