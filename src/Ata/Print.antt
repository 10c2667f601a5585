-- ===== src/Ata/Print.antt =====
-- `ata_print_drives` of kernel/ata.c. Outside `some` a name is read past its array, or an entry past
-- the table.
use szym_os_kernel.Prelude.{
  ℕ, zero, suc, ◌+◌, Option, some, List, [], ◌∷◌, ◌++◌, ℤ, pos, negsuc, eq_ℤ, ◌==◌, if◌then◌else◌,
  ◌>>=◌, get_elem?,
}
use szym_os_kernel.CString.{text_of}
use szym_os_kernel.Console.{
  Call, uint, foreground, write, writestring, format, yellow, white, light_cyan, light_green,
  light_red,
}
use szym_os_kernel.Ata.State.{AtaDevice, AtaState, primary_io}

-- The lines of one drive, its name being the text `model`.
abbrev pub drive_lines : ℕ → AtaDevice → List ℕ → List Call
drive_lines i a model =
    foreground yellow
    ∷ format "[%d] " (uint i ∷ [])
    ∷ foreground white
    ∷ (if a.io_base == primary_io then write "Primary " else write "Secondary ")
    ∷ (if a.drive == 0 then write "Master" else write "Slave")
    ∷ write "\n    Model: "
    ∷ writestring model
    ∷ format "\n    Size: %d MB" (uint a.size_mb ∷ [])
    ∷ (if a.is_removable == 0 then foreground light_red else foreground light_green)
    ∷ (if a.is_removable == 0 then write " [FIXED DISK - CAUTION!]" else write " [REMOVABLE]")
    ∷ foreground white
    ∷ write "\n\n"
    ∷ []

-- The loop, for `n` drives from the index `i` on.
unfoldable pub print_from : ℕ → ℕ → List AtaDevice → Option (List Call)
print_from zero i drives = some []
print_from (suc n) i drives = get_elem? drives i >>= λ a. text_of a.model >>= λ model.
    print_from n (i + 1) drives >>= λ rest. some (drive_lines i a model ++ rest)

abbrev pub no_drives_lines : List Call
no_drives_lines =
    foreground yellow
    ∷ write "\nNo ATA drives detected.\n"
    ∷ write "Filesystem will run in RAM-only mode.\n\n"
    ∷ foreground white
    ∷ []

abbrev pub drives_heading : List Call
drives_heading =
    foreground light_cyan ∷ write "\n=== Detected Storage Devices ===\n\n" ∷ foreground white ∷ []

-- The number of rounds of a loop up to an `int`.
abbrev pub rounds : ℤ → ℕ
rounds (pos n) = n
rounds (negsuc n) = 0

unfoldable pub ata_print_drives : AtaState → Option (List Call)
unfolding print_from
ata_print_drives a =
    if eq_ℤ a.drive_count (pos 0)
    then some no_drives_lines
    else (print_from (rounds a.drive_count) 0 a.drives >>= λ lines. some (drives_heading ++ lines))
