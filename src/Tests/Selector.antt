-- ===== src/Tests/Selector.antt =====
-- The choice of a drive on a machine with one.
use szym_os_kernel.Prelude.{◌≡◌, refl, some, arith, pos, ℕ, List, [], ◌∷◌, ◌++◌, false, replicate}
use szym_os_kernel.Keyboard.{character, on_scancode}
use szym_os_kernel.Keyboard.Stream.{decode}
use szym_os_kernel.Keyboard.Queued.{Queued}
use szym_os_kernel.System.{System}
use szym_os_kernel.Ata.Disk.{Drive}
use szym_os_kernel.Selector.{mount_drive, disk_selector_run}
use szym_os_kernel.Selector.Mount.{Mounts, mount_drive-Mounts}
use szym_os_kernel.Selector.Dialogue.{Dialogue, backs_out, confirms}
use szym_os_kernel.Selector.Dialogue.Choice.{Returns, disk_selector_run-Returns}
use szym_os_kernel.Tests.Keyboard.{queue_ports, queue_law, idle}
use szym_os_kernel.Tests.Disk.{prompt_ports}
use szym_os_kernel.Tests.Ata.{machine, named, machine-AreDetected}

mount_drive-Mounts_example :
    (s' : System Drive) × (mount_drive prompt_ports (pos 0) machine ≡ some s') × Mounts 0 machine s'
mount_drive-Mounts_example =
    mount_drive-Mounts prompt_ports 0 1 machine refl (omega arith) machine-AreDetected

-- `x` is passed over, the first drive is fixed and `n` backs out of it, and then it is confirmed.
abbrev answers : List ℕ
answers = b'x' ∷ b'0' ∷ b'n' ∷ b'0' ∷ b'y' ∷ []

abbrev answer_codes : List ℕ
answer_codes = 0x2D ∷ 0x0B ∷ 0x31 ∷ 0x0B ∷ 0x15 ∷ []

abbrev at_menu : System (List ℕ)
at_menu = record { dev = answer_codes; console = []; ata = machine.ata; fs = machine.fs }

answers-Dialogue : Dialogue 1 machine.ata.drives answers (some 0)
answers-Dialogue =
    backs_out (b'x' ∷ []) (b'0' ∷ b'y' ∷ []) b'0' b'n' named (some 0) ((refl, refl), tt) refl refl
      refl refl (confirms [] b'0' b'y' named tt refl refl refl refl)

answers-Queued :
    Queued queue_ports queue_law 20
      (record { shift_pressed = false; last_scancode = 0x15 })
      (answers ++ [])
      idle
      at_menu.dev
unfolding queue_law decode on_scancode character replicate
answers-Queued = record { types = refl; fewer = omega arith }

disk_selector_run-Returns_example :
    Returns queue_ports queue_law 20
      (record { shift_pressed = false; last_scancode = 0x15 })
      1
      (some 0)
      []
      at_menu
      (disk_selector_run queue_ports 5 5 20 idle at_menu)
disk_selector_run-Returns_example =
    disk_selector_run-Returns queue_ports queue_law 20
      (record { shift_pressed = false; last_scancode = 0x15 }) 1 answers [] (some 0) 5 5 idle
      at_menu machine.ata.drives refl answers-Dialogue
      (record { count = refl; some_drive = omega arith; answered = machine-AreDetected })
      (omega arith) (omega arith) answers-Queued
