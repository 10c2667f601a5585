-- ===== src/Selector/Dialogue.antt =====
-- A user's dialogue with the menu of kernel/disk_selector.c, from the first question to the drive.
pub mod Rounds
pub mod Choice
use szym_os_kernel.Prelude.{
  ℕ, zero, suc, ◌+◌, ◌-◌, ◌≤◌, ◌<◌, ◌≡◌, refl, sym, ap, ◌∙◌, ◌⊎◌, inl, inr, true, false, not, Bool,
  ◌&&◌, ◌||◌, Option, none, some, List, [], ◌∷◌, ◌++◌, arith, ℤ, pos, ltb_ℤ, eq_ℤ, ◌==◌,
  if◌then◌else◌, if_true, if_false, ◌>>=◌, bind_some, length, length-append, get_elem?, Bool-cases,
}
use mathlib.Core.List.{append_assoc}
use szym_os_kernel.Ports.{Ports}
use szym_os_kernel.Console.{Call, putchar, write}
use szym_os_kernel.System.{System, say}
use szym_os_kernel.Keyboard.{Keyboard}
use szym_os_kernel.Keyboard.Wait.{Controller}
use szym_os_kernel.Keyboard.Queued.{Queued}
use szym_os_kernel.Ata.State.{AtaDevice, AtaState, max_drives}
use szym_os_kernel.Ata.Drives.{ata_get_drive, ata_get_drive_count}
use szym_os_kernel.Ata.Detect.{AreDetected}
use szym_os_kernel.Ata.Print.{ata_print_drives}
use szym_os_kernel.Selector.{
  Menu, finished, ask_again, is_decimal, invalid_selection, menu_heading, get_char, ram_only,
  fixed_warning, mount_drive, confirm_drive, menu_loop, menu_round, disk_selector_run,
}
use szym_os_kernel.Selector.Mount.{Mounts, Mounts-same, mount_drive-Mounts, ata_get_drive-entry}
use szym_os_kernel.Selector.Typing.{
  ata_print_drives-IsSome, IsIgnored, AreIgnored, Untouched, get_char-types, menu_loop-ignored,
}

abbrev pub IsNo : ℕ → Type 0
IsNo c = (c == b'n' || c == b'N') ≡ true

-- The number of one of `n` drives.
abbrev pub IsNumber : ℕ → ℕ → Type 0
IsNumber n c = (is_decimal c && ltb_ℤ (pos (c - b'0')) (pos n)) ≡ true

abbrev pub says_yes : ℕ → Bool
says_yes c = c == b'y' || c == b'Y'

-- The characters that a user may type from the first menu on, with `n` drives in the table, and what
-- is chosen by them: no drive, or the number of one. In front of every answer stand any characters
-- that are passed over. A removable drive is taken at once, a fixed one after a `y`; after any other
-- character the dialogue starts anew.
pub data Dialogue (n : ℕ) (drives : List AtaDevice) : List ℕ → Option ℕ → Type 0 where
  declines :
      (cs : List ℕ) (c : ℕ) → AreIgnored n cs → IsNo c → Dialogue n drives (cs ++ c ∷ []) none
  takes :
      (cs : List ℕ) (c : ℕ) (dev : AtaDevice)
      → AreIgnored n cs
      → IsNumber n c
      → get_elem? drives (c - b'0') ≡ some dev
      → (dev.is_removable == 0) ≡ false
      → Dialogue n drives (cs ++ c ∷ []) (some (c - b'0'))
  confirms :
      (cs : List ℕ) (c y : ℕ) (dev : AtaDevice)
      → AreIgnored n cs
      → IsNumber n c
      → get_elem? drives (c - b'0') ≡ some dev
      → (dev.is_removable == 0) ≡ true
      → says_yes y ≡ true
      → Dialogue n drives (cs ++ c ∷ y ∷ []) (some (c - b'0'))
  backs_out :
      (cs ds : List ℕ) (c y : ℕ) (dev : AtaDevice) (choice : Option ℕ)
      → AreIgnored n cs
      → IsNumber n c
      → get_elem? drives (c - b'0') ≡ some dev
      → (dev.is_removable == 0) ≡ true
      → says_yes y ≡ false
      → Dialogue n drives ds choice
      → Dialogue n drives (cs ++ c ∷ y ∷ ds) choice

-- Drives as `ata_detect_drives` leaves them, at least one.
pub record HasDrives (n : ℕ) (a : AtaState) : Type 0 where
  pub count : a.drive_count ≡ pos n
  pub some_drive : 0 < n
  pub answered : AreDetected n a.drives

module _ {Device : Type 0} (ports : Ports Device) (law : Controller ports) (polls : ℕ)
    (last : Keyboard) where
  -- What a dialogue owes: a drive that has been handed over, or nothing but characters taken.
  abbrev pub Follows : Option ℕ → List ℕ → System Device → Keyboard → System Device → Type 0
  Follows none more s k' s' = Untouched ports law polls last more s k' s'
  Follows (some i) more s k' s' = Mounts i s s'

  pub Follows-same :
      (choice : Option ℕ) (more : List ℕ) (s s1 : System Device) (k' : Keyboard)
      (s' : System Device)
      → s1.ata ≡ s.ata
      → s1.fs ≡ s.fs
      → Follows choice more s1 k' s'
      → Follows choice more s k' s'
  Follows-same none more s s1 k' s' a f u = record {
    ata = u.ata ∙ a;
    fs = u.fs ∙ f;
    queued = u.queued;
  }
  Follows-same (some i) more s s1 k' s' a f m = Mounts-same a f m
