-- ===== src/Kernel/Files.antt =====
-- The files at the end of the start of kernel/kernel.c, where no drive has been selected.
use szym_os_kernel.Prelude.{◌≡◌, refl, ap, ◌∙◌, false, some, List, [], ◌∷◌, ◌++◌, arith, bind_some}
use mathlib.Core.List.{append_assoc}
use szym_os_kernel.CString.Compare.{text_of-NoNul}
use szym_os_kernel.Ports.{Ports}
use szym_os_kernel.Console.{Call}
use szym_os_kernel.System.{System}
use szym_os_kernel.Keyboard.{Keyboard}
use szym_os_kernel.Selector.{disk_selector_run}
use szym_os_kernel.Filesystem.Persist.{disk_available, fs_init}
use szym_os_kernel.Filesystem.Refine.Boot.{IsTable, fs_init-Represents}
use szym_os_kernel.Filesystem.Refine.RamOnly.{Prints, ram_lines, fs_init-Prints}
use szym_os_kernel.Filesystem.Refine.Session.{Files, find, ask_create}
use szym_os_kernel.Shell.Session.{ArePlain, Serves}
use szym_os_kernel.Shell.Dispatch.{Surroundings}
use szym_os_kernel.Shell.Run.{Shell}
use szym_os_kernel.Kernel.Main.{Rounds, start_files, readme, readme_name}
use szym_os_kernel.Kernel.Readme.{with_readme, readme_calls, first_files-Greets, readme-text}

-- The files of a first start.
unfoldable pub first_start : Files
unfolding readme
first_start = (readme_name, readme) ∷ []

with_readme-first : with_readme [] ≡ first_start
unfolding first_start with_readme ask_create find
with_readme-first = refl

first_start-ArePlain : ArePlain first_start
unfolding first_start
first_start-ArePlain = (text_of-NoNul (readme ++ 0 ∷ []) readme readme-text, omega arith, tt)

-- What is printed behind the menu.
unfoldable pub started : List Call
started = ram_lines ++ readme_calls []

module _ {Device : Type 0} (ports : Ports Device) (e : Surroundings) (n : Rounds) where
  -- What the start leaves behind the menu.
  pub record Starts (k : Keyboard) (s : System Device) (sh sh' : Shell Device) : Type 0 where
    pub serves : Serves sh'.system first_start
    pub keyboard : sh'.keyboard ≡ k
    pub line : sh'.line ≡ sh.line
    pub prints : Prints started s sh'.system

  -- A menu that returns without a drive is followed by the file system of a first start.
  pub start_files-Starts :
      (k : Keyboard) (s : System Device) (sh : Shell Device)
      → disk_selector_run ports n.menus n.choices n.polls sh.keyboard sh.system ≡ some (k, s)
      → disk_available s ≡ false
      → IsTable s.fs.header.files
      → (sh' : Shell Device) × (start_files ports e n sh ≡ some sh') × Starts k s sh sh'
  unfolding start_files disk_available started
  start_files-Starts k s sh chosen alone table =
      let s1 = fs_init ports e.behind s in
      let p1 = fs_init-Prints ports e.behind s alone in
      let alone1 : disk_available s1 ≡ false = ground (arith, p1.ata, alone) in
      let (s2, makes, greets) =
        first_files-Greets ports e n s1 [] (fs_init-Represents ports e.behind s table alone) in
      let p2 = greets.printed alone1 in
      let sh' : Shell Device = record sh { keyboard = k; system = s2 } in
      (
        sh',
        bind_some _ chosen ∙ bind_some _ makes,
        record {
          serves = record {
            holds = rw (← with_readme-first) greets.holds;
            plain = first_start-ArePlain;
            alone = ground (arith, p2.ata, alone1);
          };
          keyboard = refl;
          line = refl;
          prints = record {
            dev = p2.dev ∙ p1.dev;
            ata = p2.ata ∙ p1.ata;
            console =
                p2.console
                ∙ (ap (λ (calls : List Call). calls ++ readme_calls []) p1.console
                    ∙ append_assoc s.console ram_lines (readme_calls []));
          };
        },
      )
