-- ===== src/Tests/Enter.antt =====
-- `cat a` typed on a machine with a file.
use szym_os_kernel.Prelude.{pos, ◌≡◌, refl, some, [], ◌∷◌, ◌++◌, arith, replicate}
use szym_os_kernel.CString.{codes, text_eq}
use szym_os_kernel.Console.{putchar, writestring, write}
use szym_os_kernel.System.{say}
use szym_os_kernel.Ata.Disk.{Drive}
use szym_os_kernel.Filesystem.Refine.Session.{find}
use szym_os_kernel.Keyboard.{initial}
use szym_os_kernel.Shell.Line.{Line, Shows}
use szym_os_kernel.Shell.Screens.{shell_print_prompt}
use szym_os_kernel.Shell.Run.{Shell, waits, take_key}
use szym_os_kernel.Shell.Enter.{take_key-cat}
use szym_os_kernel.Tests.Disk.{prompt_ports}
use szym_os_kernel.Tests.Reboot.{saved, saved-Represents}
use szym_os_kernel.Tests.Shell.{around}

abbrev cat_line : Line
cat_line = record { command_buffer = codes "cat a" ++ replicate 251 0; command_index = pos 5 }

cat_line-Shows : Shows (codes "cat a") cat_line
unfolding replicate
cat_line-Shows = record {
  size = refl;
  index = refl;
  room = omega arith;
  text = refl;
  no_nul = (refl, (refl, (refl, (refl, (refl, tt)))));
}

abbrev shell : Shell Drive
shell = record { keyboard = initial; line = cat_line; system = saved }

take_key-cat_example :
    (l : Line) × (take_key prompt_ports around 10 shell
      ≡ some (
          waits (record (shell) {
            line = l;
            system =
                say shell_print_prompt
                  (say (writestring (codes "hi") ∷ write "\n" ∷ []) (say (putchar 10 ∷ []) saved));
          })))
    × Shows [] l
unfolding find text_eq
take_key-cat_example =
    take_key-cat prompt_ports around (codes "a") (codes "hi") shell cat_line-Shows (refl, tt)
      saved-Represents.valid saved-Represents.ready (saved-Represents.same (codes "a"))
      (refl, (refl, tt)) (omega arith)
