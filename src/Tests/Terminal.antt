-- ===== src/Tests/Terminal.antt =====
-- kernel/terminal.c on an empty screen.
use szym_os_kernel.Prelude.{
  ℕ, ◌+◌, ◌-◌, ◌≤◌, ◌≡◌, refl, ◌&&◌, some, List, [], ◌∷◌, ◌++◌, arith, pos, negsuc, ltb, leb,
  if◌then◌else◌, length, get_or,
}
use szym_os_kernel.CString.{codes}
use szym_os_kernel.Ports.{Ports}
use szym_os_kernel.Console.{putchar, int, uint}
use szym_os_kernel.Terminal.Screen.{
  Screen, vga_entry, blank, terminal_scroll, terminal_write, terminal_putchar, put_cell,
  terminal_update_cursor,
}
use szym_os_kernel.Terminal.Screen.Scroll.{terminal_scroll_lem}
use szym_os_kernel.Terminal.Screen.Bounds.{OnScreen, DrawsInside}
use szym_os_kernel.Terminal.Screen.Text.{terminal_write-IsPlain}
use szym_os_kernel.Terminal.Printf.{format_int, format_hex, expand, convert, decimal, digits_loop}
use szym_os_kernel.Terminal.Printf.Decimal.{format_hex_lem}
use szym_os_kernel.Terminal.Printf.Numeral.{HexOf}
use szym_os_kernel.Terminal.Replay.{replay, perform, replay-OnScreen}

-- Ports that do nothing.
abbrev deaf : Ports (Unit {0})
deaf = record {
  inb = λ port d. (0, d);
  inw = λ port d. (0, d);
  outb = λ port value d. d;
  outw = λ port value d. d;
}

abbrev screen : Screen (Unit {0})
screen = record { cells = λ i. i; row = 24; column = 3; color = 7; dev = tt }

formatted :
    expand (codes "%d %x %%|%d" ++ 0 ∷ []) (int (negsuc 41) ∷ uint 0xBEEF ∷ int (pos 0) ∷ [])
    ≡ some (codes "-42 0xBEEF %|0")
unfolding expand convert format_int format_hex decimal digits_loop
formatted = refl

-- The least `int` loses its digits.
least_int : format_int (negsuc 2147483647) ≡ codes "-"
unfolding format_int
least_int = refl

terminal_scroll_lem_example :
    ((i : ℕ)
      → (terminal_scroll screen).cells i
        ≡ (if ltb i 1920 then i + 80 else if ltb i 2000 then blank 7 else i))
    × ((terminal_scroll screen).row ≡ 24)
terminal_scroll_lem_example = terminal_scroll_lem screen

terminal_write-IsPlain_example :
    let t' = terminal_write deaf (codes "hi") screen in
    (t'.row ≡ 24)
    × (t'.column ≡ 5)
    × ((i : ℕ)
        → t'.cells i ≡ (
            if leb 1923 i && ltb i 1925 then vga_entry (get_or (codes "hi") (i - 1923) 0) 7 else i))
terminal_write-IsPlain_example =
    terminal_write-IsPlain deaf (codes "hi") screen ((refl, refl, refl, (refl, refl, refl, tt)))
      (omega arith)

format_hex_lem_example :
    (ds : List ℕ) × (format_hex 0x1F0 ≡ b'0' ∷ b'x' ∷ ds) × HexOf 0x1F0 ds × (length ds ≤ 8)
format_hex_lem_example = format_hex_lem 0x1F0 (omega arith)

after : Screen (Unit {0})
unfolding perform terminal_putchar put_cell terminal_update_cursor
after = terminal_putchar deaf b'!' screen

replay-OnScreen_example : OnScreen after × DrawsInside screen after
unfolding after replay perform
replay-OnScreen_example = replay-OnScreen deaf (putchar b'!' ∷ []) screen after (omega arith) refl
