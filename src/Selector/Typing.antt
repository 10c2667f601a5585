-- ===== src/Selector/Typing.antt =====
-- The menu of kernel/disk_selector.c on the characters that a user types.
use szym_os_kernel.Prelude.{
  ℕ, zero, suc, ◌+◌, ◌-◌, ◌≤◌, ◌<◌, ◌≡◌, refl, ap, ◌∙◌, inl, inr, false, ◌&&◌, ◌||◌, some, List, [],
  ◌∷◌, ◌++◌, arith, pos, ltb_ℤ, ◌==◌, if◌then◌else◌, if_false, bind_some, length, get_or,
  Bool-cases,
}
use szym_os_kernel.CString.{text_of}
use szym_os_kernel.Ports.{Ports}
use szym_os_kernel.Console.{Call}
use szym_os_kernel.System.{System, say, with_dev}
use szym_os_kernel.Keyboard.{Keyboard}
use szym_os_kernel.Keyboard.Wait.{Controller}
use szym_os_kernel.Keyboard.Queued.{Queued, keyboard_getchar-Found}
use szym_os_kernel.Ata.State.{AtaDevice, AtaState}
use szym_os_kernel.Ata.Detect.{AreDetected, IsDetected}
use szym_os_kernel.Ata.Print.{
  print_from, drive_lines, drives_heading, no_drives_lines, ata_print_drives,
}
use szym_os_kernel.Selector.{invalid_selection, is_decimal, get_char, menu_loop}

text_of-IsSome :
    (xs : List ℕ) (i : ℕ) → i < length xs → get_or xs i 1 ≡ 0 → (t : List ℕ) × (text_of xs ≡ some t)
unfolding text_of
text_of-IsSome [] i low z = absurd (omega arith)
text_of-IsSome (c ∷ xs) zero low z = ([], rw z refl)
text_of-IsSome (c ∷ xs) (suc i) low z =
    let (t, e) = text_of-IsSome xs i (omega arith) z in
    elim (Bool-cases (c == 0)) [ inl h ↦ ([], rw h refl) | inr h ↦ (c ∷ t, rw (h, e) refl) ]

get_or-inside : (xs : List ℕ) (i d d' : ℕ) → i < length xs → get_or xs i d ≡ get_or xs i d'
get_or-inside [] i d d' low = absurd (omega arith)
get_or-inside (x ∷ xs) zero d d' low = refl
get_or-inside (x ∷ xs) (suc i) d d' low = get_or-inside xs i d d' (omega arith)

model-text : (a : AtaDevice) → IsDetected a → (t : List ℕ) × (text_of a.model ≡ some t)
model-text a det =
    text_of-IsSome a.model 40 (omega (arith, det.name_size))
      (get_or-inside a.model 40 1 0 (omega (arith, det.name_size)) ∙ det.name_ends)

print_from-IsSome :
    (m i n : ℕ) (drives : List AtaDevice)
    → i + m ≤ n
    → AreDetected n drives
    → (lines : List Call) × (print_from m i drives ≡ some lines)
unfolding print_from
print_from-IsSome zero i n drives low known = ([], refl)
print_from-IsSome (suc m) i n drives low known =
    let (a, at, det) = known i (omega arith) in
    let (t, text) = model-text a det in
    let (rest, more) = print_from-IsSome m (i + 1) n drives (omega arith) known in
    (drive_lines i a t ++ rest, bind_some _ at ∙ (bind_some _ text ∙ bind_some _ more))

-- The list of the drives that have answered is printed without reading past a name or the table.
pub ata_print_drives-IsSome :
    (n : ℕ) (a : AtaState)
    → a.drive_count ≡ pos n
    → AreDetected n a.drives
    → (lines : List Call) × (ata_print_drives a ≡ some lines)
unfolding ata_print_drives
ata_print_drives-IsSome n a count known =
    let (lines, e) = print_from-IsSome n 0 n a.drives (omega arith) known in
    elim (Bool-cases (n == 0)) [
      | inl z ↦ (no_drives_lines, rw (count, z) refl)
      | inr p ↦ (drives_heading ++ lines, rw (count, p, e) refl)
    ]

-- A character that the menu passes over, with `n` drives: not `n`, and not the number of a drive.
abbrev pub IsIgnored : ℕ → ℕ → Type 0
IsIgnored n c =
    ((c == b'n' || c == b'N') ≡ false) × ((is_decimal c && ltb_ℤ (pos (c - b'0')) (pos n)) ≡ false)

abbrev pub AreIgnored : ℕ → List ℕ → Type 0
AreIgnored n [] = Unit
AreIgnored n (c ∷ cs) = IsIgnored n c × AreIgnored n cs

module _ {Device : Type 0} (ports : Ports Device) (law : Controller ports) (polls : ℕ)
    (last : Keyboard) where
  -- The drives and the files are as before, and the controller will type what is left.
  pub record Untouched (more : List ℕ) (s : System Device) (k' : Keyboard) (s' : System Device)
      : Type 0 where
    pub ata : s'.ata ≡ s.ata
    pub fs : s'.fs ≡ s.fs
    pub queued : Queued ports law polls last more k' s'.dev

  -- The next character.
  pub get_char-types :
      (c : ℕ) (more : List ℕ) (k : Keyboard) (s : System Device)
      → Queued ports law polls last (c ∷ more) k s.dev
      → (k' : Keyboard) × (s' : System Device) × (get_char ports polls k s ≡ some (c, k', s'))
        × Untouched more s k' s'
        × (s'.console ≡ s.console)
  get_char-types c more k s q =
      let f = keyboard_getchar-Found ports law polls last c more k s.dev q in
      (
        f.keyboard,
        with_dev f.device s,
        bind_some _ f.found,
        record { ata = refl; fs = refl; queued = f.left },
        refl,
      )

  -- The loop passes over them, one round for each.
  pub menu_loop-ignored :
      (n : ℕ) (cs more : List ℕ) (fuel : ℕ) (k : Keyboard) (s : System Device)
      → AreIgnored n cs
      → Queued ports law polls last (cs ++ more) k s.dev
      → (k' : Keyboard) × (s' : System Device) × (menu_loop ports
            (length cs + fuel)
            polls
            (pos n)
            k
            s
          ≡ menu_loop ports fuel polls (pos n) k' s')
        × Untouched more s k' s'
  unfolding menu_loop
  menu_loop-ignored n [] more fuel k s h q = (
    k,
    s,
    ap (λ m. menu_loop ports m polls (pos n) k s) (omega arith),
    record { ata = refl; fs = refl; queued = q },
  )
  menu_loop-ignored n (c ∷ cs) more fuel k s h q =
      let (k1, s1, got, u, _) = get_char-types c (cs ++ more) k s q in
      let s2 = if is_decimal c then say (invalid_selection (pos n)) s1 else s1 in
      let u2 : Untouched (cs ++ more) s k1 s2 = elim (Bool-cases (is_decimal c)) [
        | inl e ↦ rw e (record { ata = u.ata; fs = u.fs; queued = u.queued })
        | inr e ↦ rw e u
      ] in
      let (k', s', goes_on, v) = menu_loop-ignored n cs more fuel k1 s2 h.1 u2.queued in
      (
        k',
        s',
        ap (λ m. menu_loop ports m polls (pos n) k s) {y = suc (length cs + fuel)} (omega arith)
            ∙ (bind_some _ got ∙ (if_false _ _ h.0.0 ∙ (if_false _ _ h.0.1 ∙ goes_on))),
        record { ata = v.ata ∙ u2.ata; fs = v.fs ∙ u2.fs; queued = v.queued },
      )
