-- ===== src/Shell/Run.antt =====
-- `shell_init` and `shell_run` of kernel/shell.c.
use szym_os_kernel.Prelude.{
  ℕ, zero, suc, Option, some, ◌==◌, if◌then◌else◌, ◌>>=◌, ◌∷◌, [], set, pos, List,
}
use szym_os_kernel.Ports.{Ports}
use szym_os_kernel.Console.{putchar}
use szym_os_kernel.System.{System, say, with_dev}
use szym_os_kernel.Keyboard.{Keyboard, keyboard_getchar}
use szym_os_kernel.Kernel.{Outcome, returns, halts}
use szym_os_kernel.Shell.Line.{Line, edit, entered}
use szym_os_kernel.Shell.Screens.{shell_print_prompt, welcome}
use szym_os_kernel.Shell.Dispatch.{Surroundings, shell_execute_command}

-- The shell between two characters: the keyboard's state, the line, and the rest of the kernel.
pub record Shell (Device : Type 0) : Type 0 where
  pub keyboard : Keyboard
  pub line : Line
  pub system : System Device

unfoldable pub shell_init : {Device : Type 0} → Shell Device → Shell Device
shell_init sh =
    let l = sh.line in
    record sh {
      line = record { command_buffer = set l.command_buffer 0 0; command_index = pos 0 };
      system = say welcome sh.system;
    }

-- The shell that waits for a character, or the machine that a command has halted.
pub data Turn (Device : Type 0) : Type 0 where
  waits : Shell Device → Turn Device
  stops : System Device → Turn Device

module _ {Device : Type 0} (ports : Ports Device) (e : Surroundings) where
  -- What a command leaves that has been executed from the buffer.
  abbrev pub after_command : List ℕ → Shell Device → Outcome Device → Turn Device
  after_command buffer sh (halts s) = stops s
  after_command buffer sh (returns s) = waits (record sh {
    line = record { command_buffer = buffer; command_index = pos 0 };
    system = say shell_print_prompt s;
  })

  unfoldable pub take_key : ℕ → Shell Device → Option (Turn Device)
  unfolding shell_execute_command edit entered
  take_key c sh =
      if c == 10
      then (entered sh.line >>= λ buffer.
          shell_execute_command ports e buffer (say (putchar 10 ∷ []) sh.system) >>= λ o.
          some (after_command buffer sh o))
      else (edit c sh.line >>= λ r.
          some (waits (record sh { line = r.0; system = say r.1 sh.system })))

  -- The loop, for as many characters as the first argument says, with `polls` polls for each: the
  -- shell that waits behind them, or the machine when a command has halted it.
  unfoldable pub run_loop : ℕ → ℕ → Shell Device → Option (Turn Device)
  unfolding take_key
  run_loop zero polls sh = some (waits sh)
  run_loop (suc fuel) polls sh = keyboard_getchar ports polls sh.keyboard sh.system.dev >>= λ r.
      take_key r.0 (record sh { keyboard = r.1; system = with_dev r.2 sh.system }) >>= λ t. elim t [
        | waits next ↦ run_loop fuel polls next
        | stops s ↦ some (stops s)
      ]

  unfoldable pub shell_run : ℕ → ℕ → Shell Device → Option (Turn Device)
  unfolding run_loop
  shell_run fuel polls sh =
      run_loop fuel polls (record sh { system = say shell_print_prompt sh.system })
