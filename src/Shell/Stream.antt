-- ===== src/Shell/Stream.antt =====
-- The loop of `shell_run` in kernel/shell.c on the scancodes that the keyboard controller holds.
use szym_os_kernel.Prelude.{
  ℕ, suc, ◌+◌, ◌≤◌, ◌≡◌, refl, sym, ap, ◌∙◌, false, some, List, [], ◌∷◌, ◌++◌, arith, ◌==◌,
  if_false, length, length-append, map, bind_some,
}
use mathlib.Core.List.{append_assoc, append-nil}
use szym_os_kernel.Ports.{Ports}
use szym_os_kernel.Console.{putchar}
use szym_os_kernel.System.{say, with_dev}
use szym_os_kernel.Keyboard.{Keyboard}
use szym_os_kernel.Keyboard.Wait.{Controller}
use szym_os_kernel.Keyboard.Queued.{Queued, Found, keyboard_getchar-Found}
use szym_os_kernel.Shell.Line.{Line, edit, Shows, edit-printed}
use szym_os_kernel.Shell.Dispatch.{Surroundings}
use szym_os_kernel.Shell.Run.{Shell, waits, take_key, run_loop}

-- Characters that stand in a line as they are: none of them ends, shortens or is ignored by the line.
abbrev pub ArePrinted : List ℕ → Type 0
ArePrinted [] = Unit
ArePrinted (c ∷ cs) =
    ((c == 0) ≡ false)
    × ((c == 8) ≡ false)
    × ((c == 9) ≡ false)
    × ((c == 10) ≡ false)
    × ArePrinted cs

module _ {Device : Type 0} (ports : Ports Device) (law : Controller ports) (e : Surroundings)
    (polls : ℕ) (last : Keyboard) where
  -- One character: the loop goes on with the turn that it takes.
  pub run_loop-turn :
      (fuel c : ℕ) (cs : List ℕ) (sh next : Shell Device)
      (f : Found ports law polls last c cs sh.keyboard sh.system.dev)
      → take_key ports e c
          (record sh { keyboard = f.keyboard; system = with_dev f.device sh.system })
        ≡ some (waits next)
      → run_loop ports e (suc fuel) polls sh ≡ run_loop ports e fuel polls next
  unfolding run_loop
  run_loop-turn fuel c cs sh next f turn = bind_some _ f.found ∙ bind_some _ turn

  -- A text has been typed: it stands on the line and on the screen, and nothing else has changed.
  pub record Typed (t : List ℕ) (cs more : List ℕ) (sh sh' : Shell Device) : Type 0 where
    pub line : Shows (t ++ cs) sh'.line
    pub console : sh'.system.console ≡ sh.system.console ++ map putchar cs
    pub ata : sh'.system.ata ≡ sh.system.ata
    pub fs : sh'.system.fs ≡ sh.system.fs
    pub queued : Queued ports law polls last more sh'.keyboard sh'.system.dev

  take_key-printed :
      (c : ℕ) (l' : Line) (sh : Shell Device)
      → (c == 10) ≡ false
      → edit c sh.line ≡ some (l', putchar c ∷ [])
      → take_key ports e c sh
        ≡ some (waits (record sh { line = l'; system = say (putchar c ∷ []) sh.system }))
  unfolding take_key
  take_key-printed c l' sh h edits = if_false _ _ h ∙ bind_some _ edits

  -- Printed characters that the controller holds are typed, one round of the loop for each, as long as
  -- the line has room for them.
  pub run_loop-Typed :
      (cs more t : List ℕ) (fuel : ℕ) (sh : Shell Device)
      → ArePrinted cs
      → Shows t sh.line
      → length t + length cs ≤ 255
      → Queued ports law polls last (cs ++ more) sh.keyboard sh.system.dev
      → (sh' : Shell Device) × (run_loop ports e (length cs + fuel) polls sh
          ≡ run_loop ports e fuel polls sh')
        × Typed t cs more sh sh'
  run_loop-Typed [] more t fuel sh p s room q = (
    sh,
    ap (λ n. run_loop ports e n polls sh) (omega arith),
    record {
      line = rw (append-nil t) s;
      console = sym (append-nil sh.system.console);
      ata = refl;
      fs = refl;
      queued = q;
    },
  )
  run_loop-Typed (c ∷ cs) more t fuel sh p s room q =
      let f =
        keyboard_getchar-Found ports law polls last c (cs ++ more) sh.keyboard sh.system.dev q in
      let (l', edits, shows) = edit-printed c t sh.line s (omega arith) p.0 p.1 p.2 in
      let next : Shell Device = record {
        keyboard = f.keyboard;
        line = l';
        system = say (putchar c ∷ []) (with_dev f.device sh.system);
      } in
      let here : Shell Device = record sh {
        keyboard = f.keyboard;
        system = with_dev f.device sh.system;
      } in
      let turn : take_key ports e c here ≡ some (waits next) =
        take_key-printed c l' here p.3 edits in
      let (sh', goes_on, typed) =
        run_loop-Typed cs more (t ++ c ∷ []) fuel next p.4 shows
          (omega (arith, length-append t (c ∷ []))) f.left in
      (
        sh',
        ap (λ n. run_loop ports e n polls sh) (omega arith)
            ∙ (run_loop-turn (length cs + fuel) c (cs ++ more) sh next f turn ∙ goes_on),
        record {
          line = rw (append_assoc t (c ∷ []) cs) at typed.line;
          console =
              typed.console ∙ append_assoc sh.system.console (putchar c ∷ []) (map putchar cs);
          ata = typed.ata;
          fs = typed.fs;
          queued = typed.queued;
        },
      )
