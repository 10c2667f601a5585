-- ===== src/Shell/Dispatch/Commands.antt =====
-- Which command a line reaches.
use szym_os_kernel.Prelude.{ℕ, ◌≡◌, refl, List, ◌++◌}
use szym_os_kernel.CString.{codes, strcmp}
use szym_os_kernel.Ports.{Ports}
use szym_os_kernel.System.{System}
use szym_os_kernel.Shell.Text.{starts_with}
use szym_os_kernel.Shell.Files.{cmd_cat, cmd_write, cmd_rm}
use szym_os_kernel.Shell.Calc.{cmd_calc}
use szym_os_kernel.Shell.Dispatch.{
  Surroundings, returning, shell_execute_command, other_commands, last_commands,
}

module _ {Device : Type 0} (ports : Ports Device) (e : Surroundings) (args : List ℕ)
    (s : System Device) where
  -- A line of a command with arguments reaches the function of that command, whatever its arguments are,
  -- and the pointer that the function gets stands behind the space.
  pub shell_execute_command-args :
      (shell_execute_command ports e (codes "cat " ++ args) s ≡ returning (cmd_cat args s))
      × (shell_execute_command ports e (codes "write " ++ args) s
          ≡ returning (cmd_write ports e.behind e.stack args s))
      × (shell_execute_command ports e (codes "rm " ++ args) s
          ≡ returning (cmd_rm ports e.behind args s))
      × (shell_execute_command ports e (codes "calc " ++ args) s ≡ returning (cmd_calc args s))
  unfolding shell_execute_command other_commands last_commands strcmp starts_with
  shell_execute_command-args = (refl, refl, refl, refl)
