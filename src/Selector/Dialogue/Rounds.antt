-- ===== src/Selector/Dialogue/Rounds.antt =====
-- A round of the menu of kernel/disk_selector.c, up to the answer of the user.
use szym_os_kernel.Prelude.{
  ℕ, suc, ◌+◌, ◌-◌, ◌<◌, ◌≡◌, refl, ap, ◌∙◌, true, false, not, ◌&&◌, ◌||◌, Option, some, List, [],
  ◌∷◌, ◌++◌, arith, pos, ltb_ℤ, eq_ℤ, ◌==◌, if◌then◌else◌, if_true, if_false, ◌>>=◌, bind_some,
  length, get_elem?,
}
use szym_os_kernel.Ports.{Ports}
use szym_os_kernel.Console.{Call, putchar, write}
use szym_os_kernel.System.{System, say}
use szym_os_kernel.Keyboard.{Keyboard}
use szym_os_kernel.Keyboard.Wait.{Controller}
use szym_os_kernel.Keyboard.Queued.{Queued}
use szym_os_kernel.Ata.State.{AtaDevice, AtaState}
use szym_os_kernel.Ata.Drives.{ata_get_drive_count}
use szym_os_kernel.Ata.Print.{ata_print_drives}
use szym_os_kernel.Selector.{
  Menu, finished, ask_again, is_decimal, invalid_selection, menu_heading, ram_only, fixed_warning,
  mount_drive, confirm_drive, menu_loop, menu_round,
}
use szym_os_kernel.Selector.Mount.{Mounts, Mounts-same, mount_drive-Mounts, ata_get_drive-entry}
use szym_os_kernel.Selector.Typing.{
  ata_print_drives-IsSome, AreIgnored, Untouched, get_char-types, menu_loop-ignored,
}
use szym_os_kernel.Selector.Dialogue.{IsNumber, says_yes, HasDrives}

pub HasDrives-same : {n : ℕ} {a a' : AtaState} → a' ≡ a → HasDrives n a → HasDrives n a'
HasDrives-same e h = rw e h

pub number-below : (n c : ℕ) → IsNumber n c → c - b'0' < n
number-below n c h = ground (arith, h)

pub not_no : (n c : ℕ) → IsNumber n c → (c == b'n' || c == b'N') ≡ false
not_no n c h = ground (arith, h)

module _ {Device : Type 0} (ports : Ports Device) (law : Controller ports) (polls : ℕ)
    (last : Keyboard) (n : ℕ) where
  -- A round up to the character that is not passed over.
  pub record Reaches (more : List ℕ) (c : ℕ) (fuel : ℕ) (k : Keyboard) (s : System Device)
      : Type 0 where
    pub keyboard : Keyboard
    pub state : System Device
    pub rest : Option (Menu × Keyboard × System Device)
    pub untouched : Untouched ports law polls last more s keyboard state
    pub reached : menu_round ports fuel polls k s ≡ (
        if c == b'n' || c == b'N'
        then some (finished, keyboard, say ram_only state)
        else if is_decimal c && ltb_ℤ (pos (c - b'0')) (pos n)
        then confirm_drive ports polls c keyboard state
        else rest)

  starts :
      (lines : List Call) (fuel : ℕ) (k : Keyboard) (s : System Device)
      → HasDrives n s.ata
      → ata_print_drives s.ata ≡ some lines
      → menu_round ports fuel polls k s
        ≡ menu_loop ports fuel polls (pos n) k (say (lines ++ menu_heading (pos n)) s)
  unfolding menu_round ata_get_drive_count
  starts lines fuel k s h printed =
      let drives : (n == 0) ≡ false = ground (arith, h.some_drive) in
      if_false _ _ (ap (λ z. eq_ℤ z (pos 0)) h.count ∙ drives)
      ∙ (bind_some _ printed
          ∙ ap (λ z. menu_loop ports fuel polls z k (say (lines ++ menu_heading z) s)) h.count)

  pub menu_round-Reaches :
      (cs more : List ℕ) (c fuel : ℕ) (k : Keyboard) (s : System Device)
      → HasDrives n s.ata
      → AreIgnored n cs
      → length cs < fuel
      → Queued ports law polls last (cs ++ c ∷ more) k s.dev
      → Reaches more c fuel k s
  unfolding menu_loop
  menu_round-Reaches cs more c fuel k s h ig low q =
      let (lines, printed) = ata_print_drives-IsSome n s.ata h.count h.answered in
      let s0 = say (lines ++ menu_heading (pos n)) s in
      let f = fuel - length cs - 1 in
      let (k1, s1, passed, u1) =
        menu_loop-ignored ports law polls last n cs (c ∷ more) (suc f) k s0 ig q in
      let (k2, s2, got, u2, _) = get_char-types ports law polls last c more k1 s1 u1.queued in
      let rest =
        menu_loop ports f polls (pos n) k2
          (if is_decimal c then say (invalid_selection (pos n)) s2 else s2) in
      let first : menu_round ports fuel polls k s ≡ menu_loop ports fuel polls (pos n) k s0 =
        starts lines fuel k s h printed in
      record {
        keyboard = k2;
        state = s2;
        rest = rest;
        untouched = record { ata = u2.ata ∙ u1.ata; fs = u2.fs ∙ u1.fs; queued = u2.queued };
        reached =
            first
            ∙ (ap (λ m. menu_loop ports m polls (pos n) k s0) {y = length cs + suc f}
                  (omega (arith, low))
                ∙ (passed ∙ bind_some _ got));
      }

  -- The answer to the number of a drive.
  pub confirm-removable :
      (c : ℕ) (dev : AtaDevice) (k : Keyboard) (s : System Device)
      → HasDrives n s.ata
      → IsNumber n c
      → get_elem? s.ata.drives (c - b'0') ≡ some dev
      → (dev.is_removable == 0) ≡ false
      → (s' : System Device) × (confirm_drive ports polls c k s ≡ some (finished, k, s'))
        × Mounts (c - b'0') s s'
  unfolding confirm_drive
  confirm-removable c dev k s h number at removable =
      let low = number-below n c number in
      let s1 = say (putchar c ∷ write "\n\n" ∷ []) s in
      let (s', mounts, m) = mount_drive-Mounts ports (c - b'0') n s1 h.count low h.answered in
      (
        s',
        bind_some _ (ata_get_drive-entry (c - b'0') n s.ata dev h.count low at)
            ∙ (if_true _ _ (ap not removable) ∙ bind_some _ mounts),
        Mounts-same refl refl m,
      )

  -- A fixed drive is asked for again: the character behind its number.
  pub record Asks (more : List ℕ) (c y : ℕ) (k : Keyboard) (s : System Device) : Type 0 where
    pub keyboard : Keyboard
    pub state : System Device
    pub untouched : Untouched ports law polls last more s keyboard state
    pub asks : confirm_drive ports polls c k s ≡ (
        if not (says_yes y)
        then some (ask_again, keyboard, say (write "Selection cancelled.\n" ∷ []) state)
        else (mount_drive ports (pos (c - b'0')) state >>= λ s'. some (finished, keyboard, s')))

  pub confirm-Asks :
      (c y : ℕ) (more : List ℕ) (dev : AtaDevice) (k : Keyboard) (s : System Device)
      → HasDrives n s.ata
      → IsNumber n c
      → get_elem? s.ata.drives (c - b'0') ≡ some dev
      → (dev.is_removable == 0) ≡ true
      → Queued ports law polls last (y ∷ more) k s.dev
      → Asks more c y k s
  unfolding confirm_drive
  confirm-Asks c y more dev k s h number at fixed q =
      let low = number-below n c number in
      let s1 = say fixed_warning (say (putchar c ∷ write "\n\n" ∷ []) s) in
      let (k2, s2, got, u, _) = get_char-types ports law polls last y more k s1 q in
      record {
        keyboard = k2;
        state = say (putchar y ∷ write "\n\n" ∷ []) s2;
        untouched = record { ata = u.ata; fs = u.fs; queued = u.queued };
        asks =
            bind_some _ (ata_get_drive-entry (c - b'0') n s.ata dev h.count low at)
            ∙ (if_false _ _ (ap not fixed) ∙ bind_some _ got);
      }

  -- A round in which the number of a drive is typed.
  pub record Numbers (more : List ℕ) (c fuel : ℕ) (dev : AtaDevice) (k : Keyboard)
      (s : System Device) : Type 0 where
    pub keyboard : Keyboard
    pub state : System Device
    pub untouched : Untouched ports law polls last more s keyboard state
    pub drives : HasDrives n state.ata
    pub entry : get_elem? state.ata.drives (c - b'0') ≡ some dev
    pub confirms : menu_round ports fuel polls k s ≡ confirm_drive ports polls c keyboard state

  pub menu_round-Numbers :
      (cs more : List ℕ) (c fuel : ℕ) (dev : AtaDevice) (k : Keyboard) (s : System Device)
      → HasDrives n s.ata
      → AreIgnored n cs
      → IsNumber n c
      → get_elem? s.ata.drives (c - b'0') ≡ some dev
      → length cs < fuel
      → Queued ports law polls last (cs ++ c ∷ more) k s.dev
      → Numbers more c fuel dev k s
  menu_round-Numbers cs more c fuel dev k s h ig number at low q =
      let r = menu_round-Reaches cs more c fuel k s h ig low q in
      record {
        keyboard = r.keyboard;
        state = r.state;
        untouched = r.untouched;
        drives = HasDrives-same r.untouched.ata h;
        entry = ap (λ (a : AtaState). get_elem? a.drives (c - b'0')) r.untouched.ata ∙ at;
        confirms = r.reached ∙ (if_false _ _ (not_no n c number) ∙ if_true _ _ number);
      }
