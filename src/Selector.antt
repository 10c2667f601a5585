-- ===== src/Selector.antt =====
-- The choice of a drive, kernel/disk_selector.c, and its copy kernel/io.c. Outside `some` the fuel is
-- used up, or a null pointer is followed.
pub mod Mount
pub mod Typing
pub mod Dialogue
use szym_os_kernel.Prelude.{
  ℕ, zero, suc, ◌+◌, ◌-◌, Bool, not, ◌&&◌, ◌||◌, Option, none, some, List, [], ◌∷◌, ◌++◌, ℤ, pos,
  negsuc, ltb_ℤ, eq_ℤ, sub_ℕ, leb, ◌==◌, if◌then◌else◌, ◌>>=◌,
}
use szym_os_kernel.Ports.{Ports}
use szym_os_kernel.Console.{
  Call, int, foreground, putchar, write, format, notice, yellow, white, light_cyan, light_green,
  light_red,
}
use szym_os_kernel.System.{System, say, with_dev}
use szym_os_kernel.Keyboard.{Keyboard, keyboard_getchar}
use szym_os_kernel.Ata.Drives.{ata_get_drive, ata_get_drive_count}
use szym_os_kernel.Ata.Print.{ata_print_drives}
use szym_os_kernel.Ata.Select.{ata_select_drive}
use szym_os_kernel.Filesystem.Ops.{fs_set_drive_info}

-- How a round of the menu ends: the function returns, or it is called again.
pub data Menu : Type 0 where
  finished : Menu
  ask_again : Menu

abbrev pub no_devices : List Call
no_devices =
    foreground yellow
    ∷ write "\nNo storage devices detected.\n"
    ∷ write "Running in RAM-only mode.\n"
    ∷ write "Files will NOT persist after reboot!\n\n"
    ∷ foreground white
    ∷ write "Press any key to continue...\n"
    ∷ []

-- `drive_count - 1`, for a count that is not the least `int`.
abbrev pub last_number : ℤ → ℤ
last_number (pos n) = sub_ℕ n 1
last_number (negsuc n) = negsuc (n + 1)

abbrev pub enter_number : ℤ → Call
enter_number drive_count =
    format "Enter drive number (0-%d), or 'n' for RAM-only: " (int (last_number drive_count) ∷ [])

abbrev pub menu_heading : ℤ → List Call
menu_heading drive_count =
    notice light_cyan "=== Disk Selection ===\n\n"
    ++ (write "Select a drive for persistent storage:\n" ∷ enter_number drive_count ∷ [])

abbrev pub ram_only : List Call
ram_only =
    write "n\n\n"
    ∷ foreground yellow
    ∷ write "RAM-only mode selected.\n"
    ∷ write "Files will NOT persist after reboot!\n\n"
    ∷ foreground white
    ∷ []

abbrev pub fixed_warning : List Call
fixed_warning =
    foreground light_red
    ∷ write "WARNING: This is a FIXED DISK!\n"
    ∷ write "Writing to this disk could damage your system!\n"
    ∷ foreground white
    ∷ write "\nAre you SURE? (y/n): "
    ∷ []

abbrev pub mounted_lines : List Call
mounted_lines =
    foreground light_green
    ∷ write "Drive selected successfully!\n"
    ∷ write "Filesystem will be persistent.\n\n"
    ∷ foreground white
    ∷ write "Testing disk access...\n"
    ∷ write "\n"
    ∷ []

abbrev pub invalid_selection : ℤ → List Call
invalid_selection drive_count =
    notice light_red "\nInvalid selection!\n" ++ enter_number drive_count ∷ []

abbrev pub is_decimal : ℕ → Bool
is_decimal c = leb b'0' c && leb c b'9'

module _ {Device : Type 0} (ports : Ports Device) where
  -- `keyboard_getchar`, for `polls` polls.
  abbrev pub get_char : ℕ → Keyboard → System Device → Option (ℕ × Keyboard × System Device)
  get_char polls k s = keyboard_getchar ports polls k s.dev >>= λ r. some (r.0, r.1, with_dev r.2 s)

  -- The selection of a drive, and the hand-over to the file system.
  unfoldable pub mount_drive : ℤ → System Device → Option (System Device)
  mount_drive selection s = ata_select_drive ports selection s >>= λ r.
      if eq_ℤ r.0 (pos 0)
      then (ata_get_drive r.1.ata selection >>= λ drive.
          some (say mounted_lines (fs_set_drive_info drive.io_base drive.drive r.1)))
      else some (say (notice light_red "Error selecting drive!\n\n") r.1)

  -- A number in range has been typed: a fixed disk is asked for again.
  unfoldable pub confirm_drive :
      ℕ → ℕ → Keyboard → System Device → Option (Menu × Keyboard × System Device)
  unfolding mount_drive
  confirm_drive polls c k s =
      let selection = pos (c - b'0') in
      let s1 = say (putchar c ∷ write "\n\n" ∷ []) s in
      ata_get_drive s1.ata selection >>= λ drive.
      if not (drive.is_removable == 0)
      then (mount_drive selection s1 >>= λ s2. some (finished, k, s2))
      else (get_char polls k (say fixed_warning s1) >>= λ r.
          let s3 = say (putchar r.0 ∷ write "\n\n" ∷ []) r.2 in
          if not (r.0 == b'y' || r.0 == b'Y')
          then some (ask_again, r.1, say (write "Selection cancelled.\n" ∷ []) s3)
          else (mount_drive selection s3 >>= λ s4. some (finished, r.1, s4)))

  -- The loop over the characters typed, for at most the first argument of them.
  unfoldable pub menu_loop :
      ℕ → ℕ → ℤ → Keyboard → System Device → Option (Menu × Keyboard × System Device)
  unfolding confirm_drive
  menu_loop zero polls drive_count k s = none
  menu_loop (suc fuel) polls drive_count k s = get_char polls k s >>= λ r.
      let c = r.0 in
      let s1 = r.2 in
      let rest =
        menu_loop fuel polls drive_count r.1
          (if is_decimal c then say (invalid_selection drive_count) s1 else s1) in
      if c == b'n' || c == b'N'
      then some (finished, r.1, say ram_only s1)
      else if is_decimal c && ltb_ℤ (pos (c - b'0')) drive_count
      then confirm_drive polls c r.1 s1
      else rest

  -- The function up to the point where it would call itself.
  unfoldable pub menu_round :
      ℕ → ℕ → Keyboard → System Device → Option (Menu × Keyboard × System Device)
  unfolding menu_loop
  menu_round fuel polls k s =
      let drive_count = ata_get_drive_count s.ata in
      if eq_ℤ drive_count (pos 0)
      then (get_char polls k (say no_devices s) >>= λ r. some (finished, r.1, r.2))
      else (ata_print_drives s.ata >>= λ lines.
          menu_loop fuel polls drive_count k (say (lines ++ menu_heading drive_count) s))

  -- For at most the first argument of rounds.
  unfoldable pub disk_selector_run :
      ℕ → ℕ → ℕ → Keyboard → System Device → Option (Keyboard × System Device)
  unfolding menu_round
  disk_selector_run zero fuel polls k s = none
  disk_selector_run (suc rounds) fuel polls k s = menu_round fuel polls k s >>= λ r.
      let again = disk_selector_run rounds fuel polls r.1 r.2 in
      elim r.0 [ finished ↦ some (r.1, r.2) | ask_again ↦ again ]

  -- The copy in kernel/io.c: it, too, asks again by `disk_selector_run`.
  unfoldable pub show_disks_run :
      ℕ → ℕ → ℕ → Keyboard → System Device → Option (Keyboard × System Device)
  unfolding menu_round
  show_disks_run rounds fuel polls k s = menu_round fuel polls k s >>= λ r.
      let again = disk_selector_run rounds fuel polls r.1 r.2 in
      elim r.0 [ finished ↦ some (r.1, r.2) | ask_again ↦ again ]
