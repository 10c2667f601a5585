-- ===== src/Shell/Enter.antt =====
-- What Enter does with a line that has been typed.
use szym_os_kernel.Prelude.{
  ℕ, ◌≤◌, ◌≡◌, refl, ap, ◌∙◌, inl, inr, true, Bool-cases, some, List, [], ◌∷◌, ◌++◌, arith, ◌==◌,
  ==_iff, length, pos, bind_some,
}
use szym_os_kernel.CString.{codes, NoNul, text_of}
use szym_os_kernel.CString.Compare.{text_of-cons}
use szym_os_kernel.Ports.{Ports}
use szym_os_kernel.Console.{putchar, writestring, write}
use szym_os_kernel.System.{say}
use szym_os_kernel.Filesystem.State.{max_file_size}
use szym_os_kernel.Filesystem.Directory.{view, FsIsValid}
use szym_os_kernel.Kernel.{returns}
use szym_os_kernel.Shell.Line.{Line, Shows, entered-Shows}
use szym_os_kernel.Shell.Files.Session.{cmd_cat-view, text_of-end}
use szym_os_kernel.Shell.Screens.{shell_print_prompt}
use szym_os_kernel.Shell.Dispatch.{Surroundings, shell_execute_command}
use szym_os_kernel.Shell.Dispatch.Commands.{shell_execute_command-args}
use szym_os_kernel.Shell.Run.{Shell, waits, after_command, take_key}

-- A terminated string is its text, the terminator, and what follows.
pub text_of-split :
    (buf t : List ℕ) → text_of buf ≡ some t → (rest : List ℕ) × (buf ≡ t ++ 0 ∷ rest)
unfolding text_of
text_of-split [] t h = absurd cc
text_of-split (c ∷ buf) t h = elim (Bool-cases (c == 0)) [
  | inl e ↦ (buf, ground (arith, h, (==_iff c 0).0 e))
  | inr e ↦
      let (u, at, is) = text_of-cons c buf t h e in
      let (rest, split) = text_of-split buf u at in (rest, rw (is, split) refl)
]

module _ {Device : Type 0} (ports : Ports Device) (e : Surroundings) where
  -- Enter on the line `cat` with the name of a file, on a valid and initialised file system: the content
  -- is printed, if it has at most 4096 bytes and none of them is 0; the prompt is printed and the line is
  -- empty again. Nothing else changes.
  pub take_key-cat :
      (name c : List ℕ) (sh : Shell Device)
      → Shows (codes "cat " ++ name) sh.line
      → NoNul name
      → FsIsValid sh.system.fs
      → sh.system.fs.initialized ≡ true
      → view sh.system.fs name ≡ some c
      → NoNul c
      → length c ≤ max_file_size
      → (l : Line) × (take_key ports e 10 sh
          ≡ some (
              waits (record sh {
                line = l;
                system =
                    say shell_print_prompt
                      (say (writestring c ∷ write "\n" ∷ []) (say (putchar 10 ∷ []) sh.system));
              })))
        × Shows [] l
  unfolding take_key
  take_key-cat name c sh shows clean valid ready at whole small =
      let l = sh.line in
      let s1 = say (putchar 10 ∷ []) sh.system in
      let (buffer, ends, text, size) = entered-Shows (codes "cat " ++ name) l shows in
      let l' = record l { command_buffer = buffer; command_index = pos 0 } in
      let (rest, split) = text_of-split buffer (codes "cat " ++ name) text in
      let cats =
        (cmd_cat-view (name ++ 0 ∷ rest) name s1 valid ready (text_of-end name rest clean)).1 c at
          whole small in
      let runs : shell_execute_command ports e buffer s1
          ≡ some (returns (say (writestring c ∷ write "\n" ∷ []) s1)) =
        ap (λ b. shell_execute_command ports e b s1) split
        ∙ ((shell_execute_command-args ports e (name ++ 0 ∷ rest) s1).0
            ∙ bind_some (λ s. some (returns s)) cats) in
      (
        l',
        bind_some _ ends ∙ bind_some (λ o. some (after_command ports e buffer sh o)) runs,
        record { size = size; index = refl; room = omega arith; text = refl; no_nul = tt },
      )
