-- ===== src/Filesystem/Refine/RamOnly.antt =====
-- The calls of kernel/filesystem.c that change files, on a machine where no disk is selected.
use szym_os_kernel.Prelude.{
  ℕ, ◌≡◌, refl, ap, ◌∙◌, inl, inr, Bool-cases, false, not, some, List, [], ◌++◌, arith, ℤ, pos,
  negsuc, eq_ℤ, eq_of_some, if_true, if_false, >>=-eq-some, sym, ltb, if◌then◌else◌,
}
use mathlib.Core.List.{append-nil, append_assoc}
use szym_os_kernel.CString.{strlen}
use szym_os_kernel.Ports.{Ports}
use szym_os_kernel.Console.{Call, notice, yellow}
use szym_os_kernel.System.{System, say, with_fs}
use szym_os_kernel.Filesystem.State.{max_file_size}
use szym_os_kernel.Filesystem.Files.{
  fs_find_file, fs_find_free_slot, stored_length, store_file, remove_file,
}
use szym_os_kernel.Filesystem.Persist.{disk_available, fs_save_to_disk, fs_init}
use szym_os_kernel.Filesystem.Ops.{found, create_in, fs_create_file, delete_in, fs_delete_file}

abbrev pub ram_warning : List Call
ram_warning = notice yellow "Warning: No disk selected, changes are RAM-only\n"

-- What `fs_init` prints.
abbrev pub ram_lines : List Call
ram_lines = notice yellow "[OK] SzymFS initialized (RAM-only mode)\n"

-- What is printed with a result: the warning, if something was changed.
abbrev pub warned : ℤ → List Call
warned code = if eq_ℤ code (pos 0) then ram_warning else []

-- Nothing but the files and the output changes, and the output by the given calls.
pub record Prints {Device : Type 0} (calls : List Call) (s s' : System Device) : Type 0 where
  pub dev : s'.dev ≡ s.dev
  pub ata : s'.ata ≡ s.ata
  pub console : s'.console ≡ s.console ++ calls

pub Prints-none : {Device : Type 0} (s : System Device) → Prints [] s s
Prints-none s = record { dev = refl; ata = refl; console = sym (append-nil s.console) }

-- More is printed.
pub Prints-say :
    {Device : Type 0} (calls calls' : List Call) (s s' : System Device)
    → Prints calls s s'
    → Prints (calls ++ calls') s (say calls' s')
Prints-say calls calls' s s' p = record {
  dev = p.dev;
  ata = p.ata;
  console = ap (λ (l : List Call). l ++ calls') p.console ∙ append_assoc s.console calls calls';
}

module _ {Device : Type 0} (ports : Ports Device) (behind : List ℕ) where
  fs_save_to_disk-Prints :
      (s : System Device)
      → disk_available s ≡ false
      → Prints ram_warning s (fs_save_to_disk ports behind s)
  unfolding fs_save_to_disk
  fs_save_to_disk-Prints s alone = ground arith

  saved-Prints :
      (s s' : System Device)
      → disk_available s ≡ false
      → s'.dev ≡ s.dev
      → s'.ata ≡ s.ata
      → s'.console ≡ s.console
      → Prints ram_warning s (fs_save_to_disk ports behind s')
  unfolding disk_available
  saved-Prints s s' alone d a c = ground (arith, fs_save_to_disk-Prints s' (ground (arith, a)))

  create_in-Prints :
      (slot : ℤ) (name content : List ℕ) (s : System Device) (r : ℤ × System Device)
      → disk_available s ≡ false
      → create_in ports behind slot name content s ≡ some r
      → Prints (warned r.0) s r.1
  unfolding create_in
  create_in-Prints (negsuc k) name content s r alone h = rw (← eq_of_some h) (Prints-none s)
  create_in-Prints (pos slot) name content s r alone h =
      let (n, measured, h1) = >>=-eq-some (strlen content) _ h in
      elim (Bool-cases (ltb max_file_size n)) [
        | inl e ↦ let z = sym (if_true _ _ e) ∙ h1 in rw (← eq_of_some z) (Prints-none s)
        | inr e ↦
            let (m, named, h2) = >>=-eq-some (strlen name) _ (sym (if_false _ _ e) ∙ h1) in
            let s' = with_fs (store_file s.fs slot name (stored_length m) content n) s in
            rw (← eq_of_some h2) (saved-Prints s s' alone refl refl refl)
      ]

  -- A file that is created or refused.
  pub fs_create_file-Prints :
      (name content : List ℕ) (s : System Device) (r : ℤ × System Device)
      → disk_available s ≡ false
      → fs_create_file ports behind name content s ≡ some r
      → Prints (warned r.0) s r.1
  unfolding fs_create_file
  fs_create_file-Prints name content s r alone h = elim (Bool-cases s.fs.initialized) [
    | inr e ↦ let z = sym (if_true _ _ (ap not e)) ∙ h in rw (← eq_of_some z) (Prints-none s)
    | inl e ↦
        let h0 = sym (if_false _ _ (ap not e)) ∙ h in
        let (slot, sought, h1) = >>=-eq-some (fs_find_file s.fs.header.files name) _ h0 in
        elim (Bool-cases (found slot)) [
          | inl f ↦ let z = sym (if_true _ _ f) ∙ h1 in rw (← eq_of_some z) (Prints-none s)
          | inr f ↦
              create_in-Prints (fs_find_free_slot s.fs.header.files) name content s r alone
                (sym (if_false _ _ f) ∙ h1)
        ]
  ]

  delete_in-Prints :
      (slot : ℤ) (s : System Device)
      → disk_available s ≡ false
      → Prints (warned (delete_in ports behind slot s).0) s (delete_in ports behind slot s).1
  unfolding delete_in
  delete_in-Prints (negsuc k) s alone = Prints-none s
  delete_in-Prints (pos slot) s alone =
      saved-Prints s (with_fs (remove_file s.fs slot) s) alone refl refl refl

  pub fs_delete_file-Prints :
      (name : List ℕ) (s : System Device) (r : ℤ × System Device)
      → disk_available s ≡ false
      → fs_delete_file ports behind name s ≡ some r
      → Prints (warned r.0) s r.1
  unfolding fs_delete_file
  fs_delete_file-Prints name s r alone h = elim (Bool-cases s.fs.initialized) [
    | inr e ↦ let z = sym (if_true _ _ (ap not e)) ∙ h in rw (← eq_of_some z) (Prints-none s)
    | inl e ↦
        let h0 = sym (if_false _ _ (ap not e)) ∙ h in
        let (slot, sought, h1) = >>=-eq-some (fs_find_file s.fs.header.files name) _ h0 in
        rw (← eq_of_some h1) (delete_in-Prints slot s alone)
  ]

  pub fs_init-Prints :
      (s : System Device) → disk_available s ≡ false → Prints ram_lines s (fs_init ports behind s)
  unfolding fs_init disk_available
  fs_init-Prints s alone = ground (arith, alone)
