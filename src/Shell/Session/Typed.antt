-- ===== src/Shell/Session/Typed.antt =====
-- A session at the keyboard: from the scancodes that the controller holds to the files and the screen.
use szym_os_kernel.Prelude.{
  ℕ, suc, ◌+◌, ◌≡◌, refl, sym, ap, ◌∙◌, some, List, [], ◌∷◌, ◌++◌, arith, length, length-append,
  pos, map, bind_some,
}
use mathlib.Core.List.{append_assoc, append-nil}
use szym_os_kernel.Ports.{Ports}
use szym_os_kernel.Console.{Call, putchar}
use szym_os_kernel.System.{System, say, with_dev}
use szym_os_kernel.Keyboard.{Keyboard}
use szym_os_kernel.Keyboard.Wait.{Controller}
use szym_os_kernel.Filesystem.State.{max_filename}
use szym_os_kernel.Filesystem.Persist.{disk_available}
use szym_os_kernel.Filesystem.Refine.Session.{Files}
use szym_os_kernel.Shell.Line.{Shows, entered, entered-Shows}
use szym_os_kernel.Shell.Screens.{shell_print_prompt}
use szym_os_kernel.Shell.Dispatch.{Surroundings, shell_execute_command}
use szym_os_kernel.Shell.Run.{Shell, waits, after_command, take_key, run_loop}
use szym_os_kernel.Shell.Enter.{text_of-split}
use szym_os_kernel.Keyboard.Queued.{Queued, keyboard_getchar-Found}
use szym_os_kernel.Shell.Stream.{run_loop-turn, run_loop-Typed}
use szym_os_kernel.Shell.Session.{
  Entry, line_of, IsEntry, answer, Serves, typed_lines, transcript, files_after, AreEntries,
}
use szym_os_kernel.Shell.Session.Answers.{Represents-fs, shell_execute_command-Answers}

-- A state with the files and the driver's variables of another serves what it serves.
pub Serves-same :
    {Device : Type 0} {s s' : System Device} {fs : Files}
    → s'.fs ≡ s.fs
    → s'.ata ≡ s.ata
    → Serves s fs
    → Serves s' fs
unfolding disk_available
Serves-same f a v = record {
  holds = Represents-fs f v.holds;
  plain = v.plain;
  alone = rw a v.alone;
}

module _ {Device : Type 0} (ports : Ports Device) (e : Surroundings)
    (room : length e.stack ≡ max_filename) where
  -- The shell behind Enter: the answer and the prompt have been printed, and the line is empty.
  pub record Entered (x : Entry) (fs : Files) (sh next : Shell Device) : Type 0 where
    pub serves : Serves next.system (answer x fs).1
    pub line : Shows [] next.line
    pub console :
        next.system.console
        ≡ sh.system.console ++ (putchar 10 ∷ (answer x fs).0 ++ shell_print_prompt)
    pub dev : next.system.dev ≡ sh.system.dev
    pub keyboard : next.keyboard ≡ sh.keyboard

  take_key-Entered :
      (x : Entry) (fs : Files) (sh : Shell Device)
      → IsEntry x
      → Shows (line_of x) sh.line
      → Serves sh.system fs
      → (next : Shell Device) × (take_key ports e 10 sh ≡ some (waits next)) × Entered x fs sh next
  unfolding take_key
  take_key-Entered x fs sh h shows now =
      let l = sh.line in
      let s1 = say (putchar 10 ∷ []) sh.system in
      let (buffer, ends, text, size) = entered-Shows (line_of x) l shows in
      let (rest, split) = text_of-split buffer (line_of x) text in
      let (s', runs, serves, prints) =
        shell_execute_command-Answers ports e room rest s1 fs (Serves-same refl refl now) x h in
      let next : Shell Device = record {
        keyboard = sh.keyboard;
        line = record { command_buffer = buffer; command_index = pos 0 };
        system = say shell_print_prompt s';
      } in
      (
        next,
        bind_some _ ends
            ∙ bind_some (λ o. some (after_command ports e buffer sh o))
                (ap (λ b. shell_execute_command ports e b s1) split ∙ runs),
        record {
          serves = Serves-same refl refl serves;
          line = record { size = size; index = refl; room = omega arith; text = refl; no_nul = tt };
          console =
              ap (λ (calls : List Call). calls ++ shell_print_prompt) prints.console
              ∙ (append_assoc (sh.system.console ++ putchar 10 ∷ []) (answer x fs).0
                    shell_print_prompt
                  ∙ append_assoc sh.system.console (putchar 10 ∷ [])
                      ((answer x fs).0 ++ shell_print_prompt));
          dev = prints.dev;
          keyboard = refl;
        },
      )

module _ {Device : Type 0} (ports : Ports Device) (law : Controller ports) (e : Surroundings)
    (room : length e.stack ≡ max_filename) (polls : ℕ) (last : Keyboard) where
  -- The shell behind a session: the files and the screen are those of the specification, the line is
  -- empty, and the controller will type what is left.
  pub record Ends (xs : List Entry) (more : List ℕ) (fs : Files) (sh sh' : Shell Device)
      : Type 0 where
    pub serves : Serves sh'.system (files_after xs fs)
    pub line : Shows [] sh'.line
    pub console : sh'.system.console ≡ sh.system.console ++ transcript xs fs
    pub queued : Queued ports law polls last more sh'.keyboard sh'.system.dev

  -- The shell behind one line.
  record EndsLine (x : Entry) (more : List ℕ) (fs : Files) (sh sh' : Shell Device) : Type 0 where
    serves : Serves sh'.system (answer x fs).1
    line : Shows [] sh'.line
    console :
        sh'.system.console
        ≡ sh.system.console
          ++ (map putchar (line_of x) ++ (putchar 10 ∷ (answer x fs).0 ++ shell_print_prompt))
    queued : Queued ports law polls last more sh'.keyboard sh'.system.dev

  run_loop-line :
      (x : Entry) (fs : Files) (more : List ℕ) (fuel : ℕ) (sh : Shell Device)
      → AreEntries (x ∷ [])
      → Shows [] sh.line
      → Serves sh.system fs
      → Queued ports law polls last (line_of x ++ 10 ∷ more) sh.keyboard sh.system.dev
      → (sh' : Shell Device) × (run_loop ports e (length (line_of x) + suc fuel) polls sh
          ≡ run_loop ports e fuel polls sh')
        × EndsLine x more fs sh sh'
  run_loop-line x fs more fuel sh h shows now q =
      let (sh1, types, typed) =
        run_loop-Typed ports law e polls last (line_of x) (10 ∷ more) [] (suc fuel) sh h.1 shows
          (omega (arith, h.2)) q in
      let f =
        keyboard_getchar-Found ports law polls last 10 more sh1.keyboard sh1.system.dev
          typed.queued in
      let here : Shell Device = record sh1 {
        keyboard = f.keyboard;
        system = with_dev f.device sh1.system;
      } in
      let (next, turn, entered) =
        take_key-Entered ports e room x fs here h.0 typed.line
          (Serves-same typed.fs typed.ata now) in
      let end = putchar 10 ∷ (answer x fs).0 ++ shell_print_prompt in
      (
        next,
        types ∙ run_loop-turn ports law e polls last fuel 10 more sh1 next f turn,
        record {
          serves = entered.serves;
          line = entered.line;
          console =
              entered.console
              ∙ (ap (λ (calls : List Call). calls ++ end) typed.console
                  ∙ append_assoc sh.system.console (map putchar (line_of x)) end);
          queued = rw (entered.keyboard, entered.dev) f.left;
        },
      )

  -- The rounds behind a session, whatever their number, are those of the shell behind it.
  run_loop-session :
      (xs : List Entry) (fs : Files) (more : List ℕ) (fuel : ℕ) (sh : Shell Device)
      → AreEntries xs
      → Shows [] sh.line
      → Serves sh.system fs
      → Queued ports law polls last (typed_lines xs ++ more) sh.keyboard sh.system.dev
      → (sh' : Shell Device) × (run_loop ports e (length (typed_lines xs) + fuel) polls sh
          ≡ run_loop ports e fuel polls sh')
        × Ends xs more fs sh sh'
  unfolding typed_lines transcript files_after
  run_loop-session [] fs more fuel sh h shows now q = (
    sh,
    ap (λ n. run_loop ports e n polls sh) (omega arith),
    record { serves = now; line = shows; console = sym (append-nil sh.system.console); queued = q },
  )
  run_loop-session (x ∷ xs) fs more fuel sh h shows now q =
      let later = typed_lines xs ++ more in
      let q1 : Queued ports law polls last (line_of x ++ 10 ∷ later) sh.keyboard sh.system.dev =
        rw (append_assoc (line_of x) (10 ∷ typed_lines xs) more) at q in
      let left = length (typed_lines xs) + fuel in
      let (sh1, first, ends1) = run_loop-line x fs later left sh (h.0, h.1, h.2, tt) shows now q1 in
      let (sh2, rest, ends2) =
        run_loop-session xs (answer x fs).1 more fuel sh1 h.3 ends1.line ends1.serves
          ends1.queued in
      let end = putchar 10 ∷ (answer x fs).0 ++ shell_print_prompt in
      let later_calls = transcript xs (answer x fs).1 in
      (
        sh2,
        ap (λ n. run_loop ports e n polls sh)
              (omega (arith, length-append (line_of x) (10 ∷ typed_lines xs)))
            ∙ (first ∙ rest),
        record {
          serves = ends2.serves;
          line = ends2.line;
          console =
              ends2.console
              ∙ (ap (λ (calls : List Call). calls ++ later_calls) ends1.console
                  ∙ (append_assoc sh.system.console (map putchar (line_of x) ++ end) later_calls
                      ∙ ap (λ (calls : List Call). sh.system.console ++ calls)
                          (append_assoc (map putchar (line_of x)) end later_calls)));
          queued = ends2.queued;
        },
      )

  -- A user's session on a machine where no disk is selected. If the controller holds scancodes that
  -- type the lines of a sequence of `cat`, `write` and `rm` commands, each followed by Enter, then the
  -- loop of the shell, run for as many characters, takes them all and waits for the next one: every
  -- character is echoed, every command prints the answer that the list of the files gives, each
  -- behind the others, and the file system holds the files of the list in the end. The controller
  -- then types what follows. The calls of `keyboard_getchar` have a poll for each scancode held and
  -- one more; the lines have at most 255 characters.
  pub run_loop-Ends :
      (xs : List Entry) (fs : Files) (more : List ℕ) (sh : Shell Device)
      → AreEntries xs
      → Shows [] sh.line
      → Serves sh.system fs
      → Queued ports law polls last (typed_lines xs ++ more) sh.keyboard sh.system.dev
      → (sh' : Shell Device) × (run_loop ports e (length (typed_lines xs)) polls sh
          ≡ some (waits sh'))
        × Ends xs more fs sh sh'
  unfolding run_loop
  run_loop-Ends xs fs more sh h shows now q =
      let (sh', runs, ends) = run_loop-session xs fs more 0 sh h shows now q in
      (sh', ap (λ n. run_loop ports e n polls sh) (omega arith) ∙ runs, ends)
