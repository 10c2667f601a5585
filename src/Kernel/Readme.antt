-- ===== src/Kernel/Readme.antt =====
-- The file of the first start, which `kernel_main` of kernel/kernel.c creates.
use szym_os_kernel.Prelude.{
  ℕ, ◌≡◌, refl, ap, ◌∙◌, inl, inr, false, some, List, [], ◌∷◌, ◌++◌, arith, ℤ, negsuc, bind_some,
  Option-cases, if◌then◌else◌,
}
use szym_os_kernel.CString.{literal, text_of}
use szym_os_kernel.Ports.{Ports}
use szym_os_kernel.Console.{Call}
use szym_os_kernel.System.{System, say}
use szym_os_kernel.Filesystem.Persist.{disk_available}
use szym_os_kernel.Filesystem.Refine.{is_file}
use szym_os_kernel.Filesystem.Refine.Create.{fs_create_file-Leaves}
use szym_os_kernel.Filesystem.Refine.Read.{fs_file_exists-view}
use szym_os_kernel.Filesystem.Refine.RamOnly.{
  Prints, Prints-none, Prints-say, warned, fs_create_file-Prints,
}
use szym_os_kernel.Filesystem.Refine.Session.{Files, find, ask_create, Represents}
use szym_os_kernel.Filesystem.Refine.Session.Steps.{create_refines, create_code-ask}
use szym_os_kernel.Shell.Dispatch.{Surroundings}
use szym_os_kernel.Shell.Session.Answers.{Represents-fs}
use szym_os_kernel.Kernel.Main.{Rounds, first_files, readme, readme_name, readme_created}

pub readme-text : text_of (readme ++ 0 ∷ []) ≡ some readme
unfolding readme text_of
readme-text = refl

-- The files behind the first start: a file of that name stays as it is, and where none is and the
-- table has room the text is added.
unfoldable pub with_readme : Files → Files
with_readme fs = (ask_create readme_name readme fs).1

-- What is printed on the way, where no disk is selected.
unfoldable pub readme_calls : Files → List Call
readme_calls fs =
    if is_file (find readme_name fs)
    then []
    else warned (ask_create readme_name readme fs).0 ++ readme_created

ask_create-there :
    (t d : List ℕ) (fs : Files) {c : List ℕ}
    → find t fs ≡ some c
    → ask_create t d fs ≡ (negsuc 1, fs)
unfolding ask_create
ask_create-there t d fs h = ground (arith, h)

module _ {Device : Type 0} (ports : Ports Device) (e : Surroundings) (n : Rounds)
    (s : System Device) (fs : Files) (rep : Represents s fs) where
  -- What `first_files` owes.
  pub record Greets (s' : System Device) : Type 0 where
    pub holds : Represents s' (with_readme fs)
    pub printed : disk_available s ≡ false → Prints (readme_calls fs) s s'

  -- On a valid file system with any files, the last step of the start succeeds. It leaves the files
  -- as they are if there is a `README.txt`, and else it adds one with the text of the source, unless
  -- 32 files are there already. Where no disk is selected it changes nothing else but the
  -- output, which says that the file has been created whenever there was none.
  pub first_files-Greets : (s' : System Device) × (first_files ports e n s ≡ some s') × Greets s'
  unfolding first_files with_readme readme_calls is_file text_of
  first_files-Greets =
      let asked =
        fs_file_exists-view s.fs rep.valid rep.ready (literal "README.txt") readme_name refl
        ∙ ap (λ o. some (is_file o)) (rep.same readme_name) in
      elim (Option-cases (find readme_name fs)) [
        | inr (c, there) ↦ (
          s,
          bind_some _ (asked ∙ ap (λ o. some (is_file o)) there),
          record {
            holds =
                rw (ap (λ (p : ℤ × Files). p.1) (ask_create-there readme_name readme fs there)) rep;
            printed = λ alone. rw there (Prints-none s);
          },
        )
        | inl absent ↦
            let (r, creates, leaves) =
              fs_create_file-Leaves ports e.behind (literal "README.txt") (readme ++ 0 ∷ [])
                readme_name readme s rep.valid rep.ready refl (omega arith) readme-text in
            let code = leaves.result ∙ create_code-ask s fs rep readme_name readme in
            (
              say readme_created r.1,
              bind_some _ (asked ∙ ap (λ o. some (is_file o)) absent) ∙ bind_some _ creates,
              record {
                holds = Represents-fs refl (create_refines s fs rep readme_name readme r leaves);
                printed = λ alone.
                    rw (absent, ← code)
                      (Prints-say (warned r.0) readme_created s r.1
                        (fs_create_file-Prints ports e.behind _ _ s r alone creates));
              },
            )
      ]
