-- ===== src/Terminal/Screen/Bounds.antt =====
-- The bounds of the cursor and of what is drawn, and the entries of the text memory.
use szym_os_kernel.Prelude.{
  ℕ, ◌+◌, ◌*◌, ◌/◌, ◌%◌, ◌<◌, ◌≡◌, refl, ◌∙◌, true, List, [], ◌∷◌, arith, ◌==◌, ==_iff, all_below,
  all_below_sound, bit_and, bit_or,
}
use szym_os_kernel.Prelude.Bytes.{poke}
use szym_os_kernel.Ports.{Ports}
use szym_os_kernel.Terminal.Screen.{
  vga_width, Screen, vga_entry, tab_mask, next_line, terminal_update_cursor, put_backspace, put_tab,
  put_cell, terminal_putchar, terminal_write,
}
use szym_os_kernel.Terminal.Screen.Scroll.{terminal_scroll_lem, column-terminal_scroll}

-- The cursor is on a cell of the screen.
pub record OnScreen {Device : Type 0} (t : Screen Device) : Type 0 where
  pub row_fits : t.row < 25
  pub column_fits : t.column < 80

-- Behind the 2000 cells of the screen `t'` is `t`.
abbrev pub DrawsInside : {Device : Type 0} → Screen Device → Screen Device → Type 0
DrawsInside t t' = (j : ℕ) → t'.cells (2000 + j) ≡ t.cells (2000 + j)

tab_table : all_below 80 (λ x. bit_and (x + 4) tab_mask == (x + 4) / 4 * 4) ≡ true
unfolding all_below
tab_table = refl

-- The mask rounds a column down to a multiple of four.
pub tab_stop : (x : ℕ) → x < 80 → bit_and (x + 4) tab_mask ≡ (x + 4) / 4 * 4
tab_stop x h =
    (==_iff _ _).0
      (all_below_sound 80 (λ x. bit_and (x + 4) tab_mask == (x + 4) / 4 * 4) x tab_table h)

entry_table : all_below 256 (λ c. all_below 256 (λ a. bit_or c (a * 256) == c + a * 256)) ≡ true
unfolding all_below
entry_table = refl

-- For a character and a colour of one byte each, the entry of the text memory holds the character in
-- its low byte and the colour in its high one.
pub vga_entry_fields :
    (uc color : ℕ)
    → uc < 256
    → color < 256
    → (vga_entry uc color % 256 ≡ uc) × (vga_entry uc color / 256 ≡ color)
unfolding vga_entry
vga_entry_fields uc color h k =
    let row =
      all_below_sound 256 (λ c. all_below 256 (λ a. bit_or c (a * 256) == c + a * 256)) uc
        entry_table h in
    omega (
      arith,
      (==_iff _ _).0 (all_below_sound 256 (λ a. bit_or uc (a * 256) == uc + a * 256) color row k),
    )

module _ {Device : Type 0} where
  next_line-OnScreen :
      (t : Screen Device) → t.row < 25 → OnScreen (next_line t) × DrawsInside t (next_line t)
  unfolding next_line
  next_line-OnScreen t h =
      let t' = record t { column = 0; row = t.row + 1 } in
      (
        ground (arith, (terminal_scroll_lem t').1, column-terminal_scroll t'),
        λ j. ground (arith, (terminal_scroll_lem t').0 (2000 + j)),
      )

module _ {Device : Type 0} (ports : Ports Device) where
  put_backspace-OnScreen :
      (t : Screen Device)
      → OnScreen t
      → OnScreen (put_backspace ports t) × DrawsInside t (put_backspace ports t)
  unfolding put_backspace terminal_update_cursor poke
  put_backspace-OnScreen t v = (ground arith, λ j. ground arith)

  put_tab-OnScreen :
      (t : Screen Device)
      → OnScreen t
      → OnScreen (put_tab ports t) × DrawsInside t (put_tab ports t)
  unfolding put_tab terminal_update_cursor
  put_tab-OnScreen t v =
      let t' = record t { column = bit_and (t.column + 4) tab_mask } in
      (
        ground (arith, tab_stop t.column, next_line-OnScreen t' v.row_fits),
        λ j. ground (arith, (next_line-OnScreen t' v.row_fits).1 j),
      )

  put_cell-OnScreen :
      (c : ℕ) (t : Screen Device)
      → OnScreen t
      → OnScreen (put_cell ports c t) × DrawsInside t (put_cell ports c t)
  unfolding put_cell terminal_update_cursor poke
  put_cell-OnScreen c t v =
      let t' = record t {
        cells = poke t.cells (t.row * vga_width + t.column) (vga_entry c t.color);
        column = t.column + 1;
      } in
      (
        ground (arith, (next_line-OnScreen t' v.row_fits).0),
        λ j. ground (arith, (next_line-OnScreen t' v.row_fits).1 j),
      )

  -- Whatever byte is put, the cursor stays on the screen and only cells of the screen are written.
  pub terminal_putchar-OnScreen :
      (c : ℕ) (t : Screen Device)
      → OnScreen t
      → OnScreen (terminal_putchar ports c t) × DrawsInside t (terminal_putchar ports c t)
  unfolding terminal_putchar terminal_update_cursor
  terminal_putchar-OnScreen c t v = (
    ground (
      arith,
      (next_line-OnScreen t v.row_fits).0,
      (put_backspace-OnScreen t v).0,
      (put_tab-OnScreen t v).0,
      (put_cell-OnScreen c t v).0,
    ),
    λ j. ground (
      arith,
      (next_line-OnScreen t v.row_fits).1 j,
      (put_backspace-OnScreen t v).1 j,
      (put_tab-OnScreen t v).1 j,
      (put_cell-OnScreen c t v).1 j,
    ),
  )

  pub terminal_write-OnScreen :
      (cs : List ℕ) (t : Screen Device)
      → OnScreen t
      → OnScreen (terminal_write ports cs t) × DrawsInside t (terminal_write ports cs t)
  unfolding terminal_write
  terminal_write-OnScreen [] t v = (v, λ j. refl)
  terminal_write-OnScreen (c ∷ cs) t v =
      let (v', same) = terminal_putchar-OnScreen c t v in
      let (v'', same') = terminal_write-OnScreen cs (terminal_putchar ports c t) v' in
      (v'', λ j. same' j ∙ same j)
