-- ===== src/Terminal/Screen.antt =====
-- The state of kernel/terminal.c and the functions that draw on it.
pub mod Scroll
pub mod Bounds
pub mod Text
use szym_os_kernel.Prelude.{
  ℕ, zero, suc, ◌+◌, ◌-◌, ◌*◌, Bool, not, Option, none, some, List, [], ◌∷◌, ltb, ◌==◌,
  if◌then◌else◌, ◌>>=◌, u8, u16, shl, shr, bit_and, bit_or, take, u32, sub32,
}
use szym_os_kernel.Prelude.Bytes.{Memory, poke}
use szym_os_kernel.CString.{strlen}
use szym_os_kernel.Console.{vga_entry_color, light_green, black}
use szym_os_kernel.Ports.{Ports}

abbrev pub vga_width : ℕ
vga_width = 80

abbrev pub vga_height : ℕ
vga_height = 25

-- `cells` is `terminal_buffer`, the text memory of the VGA at 0xB8000, by the index of its words.
pub record Screen (Device : Type 0) : Type 0 where
  pub cells : Memory
  pub row : ℕ
  pub column : ℕ
  pub color : ℕ
  pub dev : Device

-- `(uint16_t) uc | (uint16_t) color << 8`
unfoldable pub vga_entry : ℕ → ℕ → ℕ
vga_entry uc color = u16 (bit_or uc (shl color 8))

abbrev pub blank : ℕ → ℕ
blank color = vga_entry b' ' color

-- `for (; x < x + n; x++) terminal_buffer[y * VGA_WIDTH + x] = …` for the row below.
unfoldable pub scroll_row : ℕ → ℕ → ℕ → Memory → Memory
scroll_row zero x y cells = cells
scroll_row (suc n) x y cells =
    scroll_row n (x + 1) y (poke cells (y * vga_width + x) (cells ((y + 1) * vga_width + x)))

unfoldable pub scroll_rows : ℕ → ℕ → Memory → Memory
scroll_rows zero y cells = cells
scroll_rows (suc n) y cells = scroll_rows n (y + 1) (scroll_row vga_width 0 y cells)

-- `n` cells from column `x` of row `y` on get the same entry.
unfoldable pub fill_row : ℕ → ℕ → ℕ → ℕ → Memory → Memory
fill_row zero x y entry cells = cells
fill_row (suc n) x y entry cells = fill_row n (x + 1) y entry (poke cells (y * vga_width + x) entry)

unfoldable pub fill_rows : ℕ → ℕ → ℕ → Memory → Memory
fill_rows zero y entry cells = cells
fill_rows (suc n) y entry cells = fill_rows n (y + 1) entry (fill_row vga_width 0 y entry cells)

module _ {Device : Type 0} where
  unfoldable pub terminal_setcolor : ℕ → Screen Device → Screen Device
  terminal_setcolor color t = record t { color = color }

  unfoldable pub terminal_scroll : Screen Device → Screen Device
  terminal_scroll t = record t {
    cells =
        fill_row vga_width 0 (vga_height - 1) (blank t.color)
          (scroll_rows (vga_height - 1) 0 t.cells);
    row = vga_height - 1;
  }

  -- `terminal_column = 0; if (++terminal_row == VGA_HEIGHT) terminal_scroll();`
  unfoldable pub next_line : Screen Device → Screen Device
  next_line t =
      let t' = record t { column = 0; row = t.row + 1 } in
      if t.row + 1 == vga_height then terminal_scroll t' else t'

-- `~(4 - 1)` as a 32-bit `size_t`.
abbrev pub tab_mask : ℕ
tab_mask = 0xFFFFFFFC

module _ {Device : Type 0} (ports : Ports Device) where
  unfoldable pub enable_cursor : ℕ → ℕ → Device → Device
  enable_cursor cursor_start cursor_end d =
      let d1 = ports.outb 0x3D4 0x0A d in
      let (a, d2) = ports.inb 0x3D5 d1 in
      let d3 = ports.outb 0x3D5 (u8 (bit_or (bit_and a 0xC0) cursor_start)) d2 in
      let d4 = ports.outb 0x3D4 0x0B d3 in
      let (b, d5) = ports.inb 0x3D5 d4 in
      ports.outb 0x3D5 (u8 (bit_or (bit_and b 0xE0) cursor_end)) d5

  unfoldable pub update_cursor : ℕ → ℕ → Device → Device
  update_cursor x y d =
      let pos = u16 (y * vga_width + x) in
      let d1 = ports.outb 0x3D4 0x0F d in
      let d2 = ports.outb 0x3D5 (u8 (bit_and pos 0xFF)) d1 in
      let d3 = ports.outb 0x3D4 0x0E d2 in ports.outb 0x3D5 (u8 (bit_and (shr pos 8) 0xFF)) d3

  unfoldable pub terminal_update_cursor : Screen Device → Screen Device
  terminal_update_cursor t = record t { dev = update_cursor t.column t.row t.dev }

  unfoldable pub terminal_initialize : Screen Device → Screen Device
  terminal_initialize t =
      let color = vga_entry_color light_green black in
      record {
        cells = fill_rows vga_height 0 (blank color) t.cells;
        row = 0;
        column = 0;
        color = color;
        dev = update_cursor 0 0 (enable_cursor 0 15 t.dev);
      }

  unfoldable pub terminal_clear : Screen Device → Screen Device
  terminal_clear t = record t {
    cells = fill_rows vga_height 0 (blank t.color) t.cells;
    row = 0;
    column = 0;
    dev = update_cursor 0 0 t.dev;
  }

  -- `'\b'`: back one column, if there is one, and the cell is cleared.
  unfoldable pub put_backspace : Screen Device → Screen Device
  put_backspace t =
      let column = sub32 t.column 1 in
      let t' = record t {
        column = column;
        cells = poke t.cells (u32 (t.row * vga_width + column)) (blank t.color);
      } in
      if ltb 0 t.column then terminal_update_cursor t' else t

  -- `'\t'`: to the next multiple of four, or to the next line.
  unfoldable pub put_tab : Screen Device → Screen Device
  put_tab t =
      let column = bit_and (t.column + 4) tab_mask in
      let t' = record t { column = column } in
      terminal_update_cursor (if ltb column vga_width then t' else next_line t')

  -- Any other byte: the cell under the cursor, and the cursor one on.
  unfoldable pub put_cell : ℕ → Screen Device → Screen Device
  put_cell c t =
      let t' = record t {
        cells = poke t.cells (t.row * vga_width + t.column) (vga_entry c t.color);
        column = t.column + 1;
      } in
      terminal_update_cursor (if t.column + 1 == vga_width then next_line t' else t')

  unfoldable pub terminal_putchar : ℕ → Screen Device → Screen Device
  terminal_putchar c t =
      if c == b'\n'
      then terminal_update_cursor (next_line t)
      else if c == b'\x08'
      then put_backspace t
      else if c == b'\t'
      then put_tab t
      else put_cell c t

  unfoldable pub terminal_write : List ℕ → Screen Device → Screen Device
  terminal_write [] t = t
  terminal_write (c ∷ cs) t = terminal_write cs (terminal_putchar c t)

  unfoldable pub terminal_writestring : List ℕ → Screen Device → Option (Screen Device)
  terminal_writestring str t = strlen str >>= λ n. some (terminal_write (take n str) t)
