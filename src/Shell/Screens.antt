-- ===== src/Shell/Screens.antt =====
-- What kernel/shell.c prints without looking at anything: the prompt, the welcome, `cmd_colors` and
-- the text of `help`, `info`, `version` and `echo`.
use szym_os_kernel.Prelude.{ℕ, ◌+◌, List, [], ◌∷◌, ◌++◌}
use szym_os_kernel.CString.{codes}
use szym_os_kernel.Console.{
  Call, uint, str, foreground, write, format, notice, light_green, light_cyan, light_red, yellow,
  white,
}

abbrev pub shell_print_prompt : List Call
shell_print_prompt =
    foreground light_cyan
    ∷ write "szym"
    ∷ foreground white
    ∷ write "@"
    ∷ foreground light_green
    ∷ write "kernel"
    ∷ foreground white
    ∷ write ":$ "
    ∷ []

-- What `shell_init` prints.
abbrev pub welcome : List Call
welcome =
    notice light_green "Welcome to SzymOS Shell!\n"
    ++ write "Type 'help' for available commands.\n" ∷ []

abbrev pub color_names : List (List ℕ)
color_names =
    codes "Black"
    ∷ codes "Blue"
    ∷ codes "Green"
    ∷ codes "Cyan"
    ∷ codes "Red"
    ∷ codes "Magenta"
    ∷ codes "Brown"
    ∷ codes "Light Gray"
    ∷ codes "Dark Gray"
    ∷ codes "Light Blue"
    ∷ codes "Light Green"
    ∷ codes "Light Cyan"
    ∷ codes "Light Red"
    ∷ codes "Light Magenta"
    ∷ codes "Yellow"
    ∷ codes "White"
    ∷ []

-- The loop of `cmd_colors` over the names, from the color `i` on.
unfoldable pub color_lines : ℕ → List (List ℕ) → List Call
color_lines i [] = []
color_lines i (name ∷ names) =
    foreground i
    ∷ format "  Color test  " []
    ∷ foreground white
    ∷ format " %d: %s\n" (uint i ∷ str name ∷ [])
    ∷ color_lines (i + 1) names

unfoldable pub cmd_colors : List Call
unfolding color_lines
cmd_colors = write "=== VGA Color Palette ===\n" ∷ color_lines 0 color_names

abbrev pub help : List Call
help =
    foreground yellow
    ∷ write "SzymOS Available Commands:\n"
    ∷ foreground light_cyan
    ∷ write "System Commands:\n"
    ∷ foreground white
    ∷ write "  help     - Show this help message\n"
    ∷ write "  clear    - Clear the screen\n"
    ∷ write "  info     - Display system information\n"
    ∷ write "  version  - Show kernel version\n"
    ∷ write "  cpuid    - Display CPU information\n"
    ∷ write "  mem      - Show memory information\n"
    ∷ write "  reboot   - Reboot the system\n"
    ∷ foreground light_cyan
    ∷ write "File System Commands:\n"
    ∷ foreground white
    ∷ write "  ls       - List all files\n"
    ∷ write "  cat      - Display file contents (cat filename)\n"
    ∷ write "  write    - Create a file (write name content)\n"
    ∷ write "  rm       - Delete a file (rm filename)\n"
    ∷ write "  disks    - List ATA drives\n"
    ∷ foreground light_cyan
    ∷ write "Fun Commands:\n"
    ∷ foreground white
    ∷ write "  banner   - Display SzymOS banner\n"
    ∷ write "  colors   - Show all VGA colors\n"
    ∷ write "  calc     - Simple calculator (e.g., calc 5 + 3)\n"
    ∷ write "  echo     - Echo text back\n"
    ∷ write "  panic    - Trigger a kernel panic (test)\n"
    ∷ []

abbrev pub info : ℕ → List Call
info total_memory =
    foreground light_cyan
    ∷ write "=== SzymOS System Information ===\n"
    ∷ foreground white
    ∷ format "Kernel Version: %s\n" (str (codes "0.1.3") ∷ [])
    ∷ format "Codename: %s\n" (str (codes "Initium") ∷ [])
    ∷ write "Architecture: x86 (32-bit)\n"
    ∷ write "Bootloader: GRUB Multiboot\n"
    ∷ write "Terminal: VGA Text Mode (80x25)\n"
    ∷ format "Total Memory: %d KB\n" (uint total_memory ∷ [])
    ∷ []

abbrev pub version : List Call
version =
    format "SzymOS Kernel v%s (%s)\n" (str (codes "0.1.3") ∷ str (codes "Initium") ∷ [])
    ∷ write "A custom operating system kernel\n"
    ∷ format "Copyright (c) %s\n" (str (codes "2026") ∷ [])
    ∷ []

-- For a line that is no command.
abbrev pub unknown_command : List ℕ → List Call
unknown_command cmd =
    foreground light_red
    ∷ format "Command not found: %s\n" (str cmd ∷ [])
    ∷ foreground white
    ∷ write "Type 'help' for available commands.\n"
    ∷ []
