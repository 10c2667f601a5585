-- ===== src/Console.antt =====
-- The calls that the other parts make of kernel/terminal.c: the interface between them and the
-- screen. A handler's output is the list of its calls, in order; `Terminal` says what each does.
use szym_os_kernel.Prelude.{ℕ, List, [], ◌∷◌, ℤ, u8, shl, bit_or}
use szym_os_kernel.CString.{codes}
use Prim.Native.String.{String}

-- An argument of `terminal_printf`: an `int`, an `unsigned int`, or the text of a string.
pub data Arg : Type 0 where
  int : ℤ → Arg
  uint : ℕ → Arg
  str : List ℕ → Arg

pub data Call : Type 0 where
  setcolor : ℕ → Call
  putchar : ℕ → Call
  writestring : List ℕ → Call
  printf : List ℕ → List Arg → Call
  clear : Call

-- The members of `enum vga_color` that the kernel uses.
abbrev pub black : ℕ
black = 0

abbrev pub red : ℕ
red = 4

abbrev pub light_green : ℕ
light_green = 10

abbrev pub light_cyan : ℕ
light_cyan = 11

abbrev pub light_red : ℕ
light_red = 12

abbrev pub yellow : ℕ
yellow = 14

abbrev pub white : ℕ
white = 15

-- `fg | bg << 4`, cast to `uint8_t`.
abbrev pub vga_entry_color : ℕ → ℕ → ℕ
vga_entry_color fg bg = u8 (bit_or fg (shl bg 4))

-- `terminal_setcolor(vga_entry_color(fg, VGA_COLOR_BLACK))`
abbrev pub foreground : ℕ → Call
foreground fg = setcolor (vga_entry_color fg black)

abbrev pub write : String → Call
write s = writestring (codes s)

abbrev pub format : String → List Arg → Call
format s args = printf (codes s) args

-- The recurring group: a color, a message, and back to white.
abbrev pub notice : ℕ → String → List Call
notice fg s = foreground fg ∷ write s ∷ foreground white ∷ []

-- `print_boot_art`
abbrev pub print_boot_art : List Call
print_boot_art =
    foreground light_cyan
    ∷ write "   ____                       ___  ____\n"
    ∷ write "  / ___| _____ _ _ __ ___    / _ \\/ ___|\n"
    ∷ write "  \\___ \\|_  / | | '_ ` _ \\  | | | \\___ \\\n"
    ∷ write "   ___) |/ /| |_| | | | | | | |_| |___) |\n"
    ∷ write "  |____//___|\\__, |_| |_| |_|\\___/|____/\n"
    ∷ write "             |___/\n\n"
    ∷ []
