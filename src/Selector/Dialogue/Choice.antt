-- ===== src/Selector/Dialogue/Choice.antt =====
-- The menu of kernel/disk_selector.c ends with the choice of the user.
use szym_os_kernel.Prelude.{
  ℕ, zero, suc, ◌-◌, ◌≤◌, ◌<◌, ◌≡◌, ap, ◌∙◌, not, Option, some, List, [], ◌∷◌, ◌++◌, arith, if_true,
  if_false, bind_some, length, length-append, get_elem?,
}
use mathlib.Core.List.{append_assoc}
use szym_os_kernel.Ports.{Ports}
use szym_os_kernel.Console.{write}
use szym_os_kernel.System.{System, say}
use szym_os_kernel.Keyboard.{Keyboard}
use szym_os_kernel.Keyboard.Wait.{Controller}
use szym_os_kernel.Keyboard.Queued.{Queued}
use szym_os_kernel.Ata.State.{AtaDevice, AtaState}
use szym_os_kernel.Selector.{ram_only, disk_selector_run}
use szym_os_kernel.Selector.Mount.{Mounts-same, mount_drive-Mounts}
use szym_os_kernel.Selector.Dialogue.{
  Dialogue, declines, takes, confirms, backs_out, HasDrives, Follows, Follows-same,
}
use szym_os_kernel.Selector.Dialogue.Rounds.{
  HasDrives-same, number-below, menu_round-Reaches, menu_round-Numbers, confirm-removable,
  confirm-Asks,
}

not_empty :
    (n : ℕ) (drives : List AtaDevice) (ds : List ℕ) (choice : Option ℕ)
    → Dialogue n drives ds choice
    → 0 < length ds
not_empty n drives _ _ (declines cs c _ _) = omega (arith, length-append cs (c ∷ []))
not_empty n drives _ _ (takes cs c _ _ _ _ _) = omega (arith, length-append cs (c ∷ []))
not_empty n drives _ _ (confirms cs c y _ _ _ _ _ _) = omega (arith, length-append cs (c ∷ y ∷ []))
not_empty n drives _ _ (backs_out cs ds c y _ _ _ _ _ _ _ _) =
    omega (arith, length-append cs (c ∷ y ∷ ds))

module _ {Device : Type 0} (ports : Ports Device) (law : Controller ports) (polls : ℕ)
    (last : Keyboard) (n : ℕ) where
  -- The menu returns with what the user has chosen.
  abbrev pub Returns :
      Option ℕ → List ℕ → System Device → Option (Keyboard × System Device) → Type 0
  Returns choice more s o =
      (k' : Keyboard) × (s' : System Device) × (o ≡ some (k', s'))
      × Follows ports law polls last choice more s k' s'

  -- If the table holds the drives that have answered, at least one, and the controller holds scancodes
  -- that type a dialogue, then `disk_selector_run` returns, within as many rounds, and as many
  -- characters of each, as the dialogue has characters. When no drive is chosen, the driver's variables
  -- and the file system's are as before, and the controller will type what stands behind the dialogue.
  -- When a drive is, it is the one of its last number: either that entry is selected and the file
  -- system has its channel and number, or neither has changed.
  pub disk_selector_run-Returns :
      (ds more : List ℕ) (choice : Option ℕ) (rounds fuel : ℕ) (k : Keyboard) (s : System Device)
      (drives : List AtaDevice)
      → s.ata.drives ≡ drives
      → Dialogue n drives ds choice
      → HasDrives n s.ata
      → length ds ≤ rounds
      → length ds ≤ fuel
      → Queued ports law polls last (ds ++ more) k s.dev
      → Returns choice more s (disk_selector_run ports rounds fuel polls k s)
  unfolding disk_selector_run
  disk_selector_run-Returns ds more choice zero fuel k s drives same d h room enough q =
      absurd (omega (arith, not_empty n drives ds choice d))
  disk_selector_run-Returns _ more _ (suc rounds) fuel k s drives same (declines cs c ig declined) h
        room enough q =
      let r =
        menu_round-Reaches ports law polls last n cs more c fuel k s h ig
          (omega (arith, enough, length-append cs (c ∷ [])))
          (rw (append_assoc cs (c ∷ []) more) at q) in
      (
        r.keyboard,
        say ram_only r.state,
        bind_some _ (r.reached ∙ if_true _ _ declined),
        record { ata = r.untouched.ata; fs = r.untouched.fs; queued = r.untouched.queued },
      )
  disk_selector_run-Returns _ more _ (suc rounds) fuel k s drives same
        (takes cs c dev ig number at removable) h room enough q =
      let r =
        menu_round-Numbers ports law polls last n cs more c fuel dev k s h ig number
          (ap (λ l. get_elem? l (c - b'0')) same ∙ at)
          (omega (arith, enough, length-append cs (c ∷ [])))
          (rw (append_assoc cs (c ∷ []) more) at q) in
      let (s', mounts, m) =
        confirm-removable ports law polls last n c dev r.keyboard r.state r.drives number r.entry
          removable in
      (
        r.keyboard,
        s',
        bind_some _ (r.confirms ∙ mounts),
        Mounts-same r.untouched.ata r.untouched.fs m,
      )
  disk_selector_run-Returns _ more _ (suc rounds) fuel k s drives same
        (confirms cs c y dev ig number at fixed agreed) h room enough q =
      let r =
        menu_round-Numbers ports law polls last n cs (y ∷ more) c fuel dev k s h ig number
          (ap (λ l. get_elem? l (c - b'0')) same ∙ at)
          (omega (arith, enough, length-append cs (c ∷ y ∷ [])))
          (rw (append_assoc cs (c ∷ y ∷ []) more) at q) in
      let a =
        confirm-Asks ports law polls last n c y more dev r.keyboard r.state r.drives number r.entry
          fixed r.untouched.queued in
      let there = HasDrives-same a.untouched.ata r.drives in
      let (s', mounts, m) =
        mount_drive-Mounts ports (c - b'0') n a.state there.count (number-below n c number)
          there.answered in
      (
        a.keyboard,
        s',
        bind_some _ (r.confirms ∙ (a.asks ∙ (if_false _ _ (ap not agreed) ∙ bind_some _ mounts))),
        Mounts-same (a.untouched.ata ∙ r.untouched.ata) (a.untouched.fs ∙ r.untouched.fs) m,
      )
  disk_selector_run-Returns _ more _ (suc rounds) fuel k s drives same
        (backs_out cs ds c y dev choice ig number at fixed refused d) h room enough q =
      let r =
        menu_round-Numbers ports law polls last n cs (y ∷ ds ++ more) c fuel dev k s h ig number
          (ap (λ l. get_elem? l (c - b'0')) same ∙ at)
          (omega (arith, enough, length-append cs (c ∷ y ∷ ds)))
          (rw (append_assoc cs (c ∷ y ∷ ds) more) at q) in
      let a =
        confirm-Asks ports law polls last n c y (ds ++ more) dev r.keyboard r.state r.drives number
          r.entry fixed r.untouched.queued in
      let ata = a.untouched.ata ∙ r.untouched.ata in
      let files = a.untouched.fs ∙ r.untouched.fs in
      let s1 = say (write "Selection cancelled.\n" ∷ []) a.state in
      let (k', s', again, follows) =
        disk_selector_run-Returns ds more choice rounds fuel a.keyboard s1 drives
          (ap (λ (x : AtaState). x.drives) ata ∙ same) d (HasDrives-same ata h)
          (omega (arith, room, length-append cs (c ∷ y ∷ ds)))
          (omega (arith, enough, length-append cs (c ∷ y ∷ ds))) a.untouched.queued in
      (
        k',
        s',
        bind_some _ (r.confirms ∙ (a.asks ∙ if_true _ _ (ap not refused))) ∙ again,
        Follows-same ports law polls last choice more s s1 k' s' ata files follows,
      )
