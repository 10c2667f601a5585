-- ===== src/Shell/Session/Answers.antt =====
-- One command of the shell on files gives the answer that it owes.
use szym_os_kernel.Prelude.{
  ℕ, ◌≤◌, ◌≡◌, refl, sym, ap, ◌∙◌, inl, inr, false, Option, some, List, [], ◌∷◌, ◌++◌, arith,
  bind_some, eq_of_some, Bool-cases, Option-cases, length,
}
use mathlib.Core.List.{append_assoc}
use szym_os_kernel.CString.{codes, NoNul, text_eq}
use szym_os_kernel.Ports.{Ports}
use szym_os_kernel.Console.{Call}
use szym_os_kernel.System.{System, say}
use szym_os_kernel.Filesystem.State.{max_filename, max_file_size}
use szym_os_kernel.Filesystem.Persist.{disk_available}
use szym_os_kernel.Filesystem.Refine.RamOnly.{
  Prints, Prints-say, warned, fs_create_file-Prints, fs_delete_file-Prints,
}
use szym_os_kernel.Filesystem.Refine.Session.{
  Files, find, erase, ask_create, ask_delete, Represents,
}
use szym_os_kernel.Filesystem.Refine.Session.Steps.{
  create_code-ask, delete_code-ask, create_refines, delete_refines, ask_create-cases,
  ask_delete-cases,
}
use szym_os_kernel.Kernel.{Outcome, returns}
use szym_os_kernel.Shell.Files.{write_report, rm_report, cmd_cat}
use szym_os_kernel.Shell.Files.Session.{
  text_of-end, cmd_cat-view, cmd_write-creates, cmd_rm-deletes,
}
use szym_os_kernel.Shell.Dispatch.{Surroundings, shell_execute_command}
use szym_os_kernel.Shell.Dispatch.Commands.{shell_execute_command-args}
use szym_os_kernel.Shell.Session.{
  Entry, cat, put, rm, line_of, IsEntry, cat_answer, answer, ArePlain, Serves,
}

-- A state with the file system of another holds its files.
pub Represents-fs :
    {Device : Type 0} {s s' : System Device} {fs : Files}
    → s'.fs ≡ s.fs
    → Represents s fs
    → Represents s' fs
Represents-fs e rep = record {
  valid = rw e rep.valid;
  ready = rw e rep.ready;
  same = λ u. rw e (rep.same u);
  number = rw e rep.number;
  names_differ = rep.names_differ;
}

find-ArePlain :
    (t c : List ℕ) (fs : Files)
    → ArePlain fs
    → find t fs ≡ some c
    → NoNul c × (length c ≤ max_file_size)
unfolding find
find-ArePlain t c [] p h = cc
find-ArePlain t c ((u, d) ∷ fs) p h = elim (Bool-cases (text_eq u t)) [
  | inl e ↦ let same : some d ≡ some c = sym (rw e refl) ∙ h in rw (← eq_of_some same) (p.0, p.1)
  | inr e ↦ find-ArePlain t c fs p.2 (rw e at h)
]

erase-ArePlain : (t : List ℕ) (fs : Files) → ArePlain fs → ArePlain (erase t fs)
unfolding erase
erase-ArePlain t [] p = tt
erase-ArePlain t ((u, d) ∷ fs) p = elim (Bool-cases (text_eq u t)) [
  | inl e ↦ rw e p.2
  | inr e ↦ rw e (p.0, p.1, erase-ArePlain t fs p.2)
]

ask_create-ArePlain :
    (t c : List ℕ) (fs : Files) → ArePlain fs → NoNul c → ArePlain (ask_create t c fs).1
ask_create-ArePlain t c fs p clean = elim (ask_create-cases t c fs) [
  | inl (fails, e) ↦ rw e p
  | inr (new, small, e) ↦ rw e (clean, small, p)
]

ask_delete-ArePlain : (t : List ℕ) (fs : Files) → ArePlain fs → ArePlain (ask_delete t fs).1
ask_delete-ArePlain t fs p = elim (ask_delete-cases t fs) [
  | inl (fails, e) ↦ rw e p
  | inr (c, at, e) ↦ rw e (erase-ArePlain t fs p)
]

module _ {Device : Type 0} (ports : Ports Device) (e : Surroundings)
    (room : length e.stack ≡ max_filename) (rest : List ℕ) (s : System Device) (fs : Files)
    (now : Serves s fs) where
  -- What a command owes for an entry.
  abbrev pub Answers : Entry → Option (Outcome Device) → Type 0
  Answers x o =
      (s' : System Device) × (o ≡ some (returns s'))
      × Serves s' (answer x fs).1
      × Prints (answer x fs).0 s s'

  Prints-alone :
      {calls : List Call} {s' : System Device} → Prints calls s s' → disk_available s' ≡ false
  unfolding disk_available
  Prints-alone p = ground (arith, p.ata, now.alone)

  cat-Answers :
      (name : List ℕ)
      → NoNul name
      → Answers (cat name) (shell_execute_command ports e (line_of (cat name) ++ 0 ∷ rest) s)
  unfolding answer disk_available
  cat-Answers name clean =
      let cats =
        cmd_cat-view (name ++ 0 ∷ rest) name s now.holds.valid now.holds.ready
          (text_of-end name rest clean) in
      let reached = (shell_execute_command-args ports e (name ++ 0 ∷ rest) s).0 in
      let calls = cat_answer name (find name fs) in
      let prints : cmd_cat (name ++ 0 ∷ rest) s ≡ some (say calls s) =
        elim (Option-cases (find name fs)) [
          | inl none_there ↦ rw none_there (cats.0 (now.holds.same name ∙ none_there))
          | inr (c, there) ↦
              let (whole, small) = find-ArePlain name c fs now.plain there in
              rw there (cats.1 c (now.holds.same name ∙ there) whole small)
        ] in
      (
        say calls s,
        reached ∙ bind_some (λ s'. some (returns s')) prints,
        record { holds = Represents-fs refl now.holds; plain = now.plain; alone = now.alone },
        record { dev = refl; ata = refl; console = refl },
      )

  rm-Answers :
      (name : List ℕ)
      → NoNul name
      → Answers (rm name) (shell_execute_command ports e (line_of (rm name) ++ 0 ∷ rest) s)
  unfolding answer disk_available
  rm-Answers name clean =
      let (r, deletes, removes, leaves) =
        cmd_rm-deletes ports e.behind (name ++ 0 ∷ rest) name s now.holds.valid now.holds.ready
          (text_of-end name rest clean) in
      let reached = (shell_execute_command-args ports e (name ++ 0 ∷ rest) s).2 in
      let code : r.0 ≡ (ask_delete name fs).0 =
        leaves.result ∙ delete_code-ask s fs now.holds name in
      let prints = fs_delete_file-Prints ports e.behind (name ++ 0 ∷ rest) s r now.alone deletes in
      (
        say (rm_report r.0 name) r.1,
        reached ∙ bind_some (λ s'. some (returns s')) removes,
        record {
          holds = Represents-fs refl (delete_refines s fs now.holds name r leaves);
          plain = ask_delete-ArePlain name fs now.plain;
          alone = Prints-alone prints;
        },
        rw (← code) (Prints-say (warned r.0) (rm_report r.0 name) s r.1 prints),
      )

  put-Answers :
      (a : ℕ) (t : List ℕ) (x : ℕ) (c : List ℕ)
      → IsEntry (put (a ∷ t) (x ∷ c))
      → Answers
          (put (a ∷ t) (x ∷ c))
          (shell_execute_command ports e (line_of (put (a ∷ t) (x ∷ c)) ++ 0 ∷ rest) s)
  unfolding answer disk_available
  put-Answers a t x c (word, named, short, clean, first) =
      let (r, creates, writes, leaves) =
        cmd_write-creates ports e.behind e.stack a t x c rest s now.holds.valid now.holds.ready room
          word short first clean in
      let args = (a ∷ t) ++ (b' ' ∷ (x ∷ c) ++ 0 ∷ rest) in
      let line : line_of (put (a ∷ t) (x ∷ c)) ++ 0 ∷ rest ≡ codes "write " ++ args =
        ap (λ (l : List ℕ). codes "write " ++ l) (append_assoc (a ∷ t) (b' ' ∷ x ∷ c) (0 ∷ rest)) in
      let reached = (shell_execute_command-args ports e args s).1 in
      let code : r.0 ≡ (ask_create (a ∷ t) (x ∷ c) fs).0 =
        leaves.result ∙ create_code-ask s fs now.holds (a ∷ t) (x ∷ c) in
      let prints = fs_create_file-Prints ports e.behind _ _ s r now.alone creates in
      (
        say (write_report r.0 (a ∷ t)) r.1,
        ap (λ l. shell_execute_command ports e l s) line
            ∙ (reached ∙ bind_some (λ s'. some (returns s')) writes),
        record {
          holds = Represents-fs refl (create_refines s fs now.holds (a ∷ t) (x ∷ c) r leaves);
          plain = ask_create-ArePlain (a ∷ t) (x ∷ c) fs now.plain clean;
          alone = Prints-alone prints;
        },
        rw (← code) (Prints-say (warned r.0) (write_report r.0 (a ∷ t)) s r.1 prints),
      )

  -- On a machine where no disk is selected, a command on files that is executed, with the terminator
  -- and anything behind it, prints its answer and leaves the files that the answer says.
  pub shell_execute_command-Answers :
      (x : Entry) → IsEntry x → Answers x (shell_execute_command ports e (line_of x ++ 0 ∷ rest) s)
  shell_execute_command-Answers (cat name) h = cat-Answers name h
  shell_execute_command-Answers (rm name) h = rm-Answers name h
  shell_execute_command-Answers (put [] c) h = absurd (omega (arith, h.1))
  shell_execute_command-Answers (put (a ∷ t) []) h = cc (h.4)
  shell_execute_command-Answers (put (a ∷ t) (x ∷ c)) h = put-Answers a t x c h
