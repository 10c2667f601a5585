-- ===== src/Ata/Selected.antt =====
-- What `ata_select_drive` of kernel/ata.c returns and leaves.
use szym_os_kernel.Prelude.{
  ℕ, zero, suc, ◌<◌, ◌≡◌, refl, ap, ◌⊎◌, inl, inr, true, false, Bool-cases, some, List, [], ◌∷◌,
  arith, ℤ, pos, negsuc, ltb, ltb→lt, ltb_ℤ, ◌==◌, length, get_or,
}
use szym_os_kernel.CString.{text_of}
use szym_os_kernel.Ports.{Ports}
use szym_os_kernel.Console.{notice, light_red}
use szym_os_kernel.System.{System, say, with_dev}
use szym_os_kernel.Ata.State.{AtaDevice}
use szym_os_kernel.Ata.Drives.{out_of_range}
use szym_os_kernel.Ata.Detect.{AreDetected}
use szym_os_kernel.Ata.Select.{select_device, set_selected, ata_select_drive, selected_lines}

-- A string with a terminator in its array has a text.
text_of-IsSome :
    (xs : List ℕ) (j : ℕ) → j < length xs → get_or xs j 0 ≡ 0 → (t : List ℕ) × (text_of xs ≡ some t)
unfolding text_of
text_of-IsSome [] j h e = absurd (omega arith)
text_of-IsSome (x ∷ xs) zero h e = ([], rw e refl)
text_of-IsSome (x ∷ xs) (suc j) h e =
    let (t, at) = text_of-IsSome xs j (omega arith) e in
    elim (Bool-cases (x == 0)) [ inl f ↦ ([], rw f refl) | inr f ↦ (x ∷ t, rw (f, at) refl) ]

module _ {Device : Type 0} (ports : Ports Device) where
  -- With `n` drives: either 0, the drive with the number is selected and it exists, or -1, and the
  -- driver's variables are as before. The file system is not touched.
  pub record Selects (drive_num : ℤ) (n : ℕ) (s : System Device) (r : ℤ × System Device)
      : Type 0 where
    pub outcome :
        ((r.0 ≡ pos 0)
          × (r.1.ata ≡ record (s.ata) { selected_drive = drive_num })
          × (k : ℕ) × (drive_num ≡ pos k)
          × (k < n))
        ⊎ (r.0 ≡ negsuc 0) × (r.1.ata ≡ s.ata)
    pub files : r.1.fs ≡ s.fs

  set_selected-Selects :
      (k n : ℕ) (dev : AtaDevice) (result : ℤ) (s : System Device) (d : Device) (model : List ℕ)
      → text_of dev.model ≡ some model
      → k < n
      → (r : ℤ × System Device) × (set_selected ports (pos k) dev result (with_dev d s) ≡ some r)
        × Selects (pos k) n s r
  unfolding set_selected
  set_selected-Selects k n dev result s d model named low =
      elim (Bool-cases (ltb_ℤ result (pos 0))) [
        | inl e ↦ (
          (negsuc 0, say (notice light_red "ERROR: Failed to select drive!\n") (with_dev d s)),
          rw e refl,
          record { outcome = inr (refl, refl); files = refl },
        )
        | inr e ↦
            let a = s.ata in
            (
              (
                pos 0,
                say (selected_lines (pos k) a.drive_count model)
                    (record s { dev = d; ata = record a { selected_drive = pos k } }),
              ),
              rw (e, named) refl,
              record { outcome = inl (refl, refl, k, refl, low); files = refl },
            )
      ]

  -- Where the entries below the count are of drives that have answered, `ata_select_drive` reads nothing
  -- out of range, for every `int`. It returns 0 and selects the drive, whose number is below the count,
  -- or it returns -1 and keeps the table, the count and the selection; it never changes the file system.
  pub ata_select_drive-Selects :
      (drive_num : ℤ) (n : ℕ) (s : System Device)
      → s.ata.drive_count ≡ pos n
      → AreDetected n s.ata.drives
      → (r : ℤ × System Device) × (ata_select_drive ports drive_num s ≡ some r)
        × Selects drive_num n s r
  unfolding ata_select_drive
  ata_select_drive-Selects (negsuc j) n s count known =
      let outside : out_of_range (negsuc j) s.ata.drive_count ≡ true = ground arith in
      ((negsuc 0, s), rw outside refl, record { outcome = inr (refl, refl); files = refl })
  ata_select_drive-Selects (pos k) n s count known = elim (Bool-cases (ltb k n)) [
    | inl low ↦
        let inside : out_of_range (pos k) s.ata.drive_count ≡ false = ground (arith, count) in
        let (dev, at, det) = known k (ltb→lt k n low) in
        let (model, named) =
          text_of-IsSome dev.model 40 (omega (arith, det.name_size)) det.name_ends in
        let present : (dev.present == 0) ≡ false = ap (λ x. x == 0) det.is_present in
        let r = select_device ports dev s.dev in
        let (r', ends, selects) =
          set_selected-Selects k n dev r.0 s r.1 model named (ltb→lt k n low) in
        (r', rw (inside, at, present) ends, selects)
    | inr high ↦
        let outside : out_of_range (pos k) s.ata.drive_count ≡ true = ground (arith, count) in
        ((negsuc 0, s), rw outside refl, record { outcome = inr (refl, refl); files = refl })
  ]
