-- ===== src/Terminal/Screen/Text.antt =====
-- What writing a line of text puts on the screen, and what clearing it leaves.
use szym_os_kernel.Prelude.{
  ℕ, suc, ◌+◌, ◌-◌, ◌*◌, ◌≤◌, ◌<◌, ◌≡◌, refl, false, ◌&&◌, List, [], ◌∷◌, arith, ltb, leb, ◌==◌,
  if◌then◌else◌, length, get_or,
}
use szym_os_kernel.Prelude.Bytes.{poke}
use szym_os_kernel.Ports.{Ports}
use szym_os_kernel.Terminal.Screen.{
  vga_width, vga_height, Screen, vga_entry, blank, terminal_update_cursor, put_cell,
  terminal_putchar, terminal_write, terminal_clear,
}
use szym_os_kernel.Terminal.Screen.Scroll.{fill_rows_lem}
use szym_os_kernel.Terminal.Screen.Bounds.{OnScreen}

-- No byte of the text moves the cursor otherwise than by one.
abbrev pub IsPlain : List ℕ → Type 0
IsPlain [] = Unit
IsPlain (c ∷ cs) =
    ((c == b'\n') ≡ false) × ((c == b'\x08') ≡ false) × ((c == b'\t') ≡ false) × IsPlain cs

get_or-step :
    (c : ℕ) (cs : List ℕ) (i a : ℕ)
    → a + 1 ≤ i
    → get_or (c ∷ cs) (i - a) 0 ≡ get_or cs (i - (a + 1)) 0
get_or-step c cs i a h = let e : i - a ≡ suc (i - (a + 1)) = omega arith in rw e

module _ {Device : Type 0} (ports : Ports Device) where
  put_plain :
      (c : ℕ) (t : Screen Device)
      → (c == b'\n') ≡ false
      → (c == b'\x08') ≡ false
      → (c == b'\t') ≡ false
      → t.column + 1 < 80
      → let t' = terminal_putchar ports c t in
        (t'.cells ≡ poke t.cells (t.row * vga_width + t.column) (vga_entry c t.color))
        × (t'.row ≡ t.row)
        × (t'.column ≡ t.column + 1)
        × (t'.color ≡ t.color)
  unfolding terminal_putchar put_cell terminal_update_cursor
  put_plain c t p q r h = ground arith

  -- A text without newline, backspace and tab that ends before the last column, written when
  -- the cursor is on the screen, stands there from the cursor on, in the current colour; no
  -- other cell changes, and the cursor is behind it on the same row.
  pub terminal_write-IsPlain :
      (cs : List ℕ) (t : Screen Device)
      → IsPlain cs
      → t.column + length cs < 80
      → let t' = terminal_write ports cs t in
        let start = t.row * 80 + t.column in
        (t'.row ≡ t.row)
        × (t'.column ≡ t.column + length cs)
        × ((i : ℕ)
            → t'.cells i ≡ (
                if leb start i && ltb i (start + length cs)
                then vga_entry (get_or cs (i - start) 0) t.color
                else t.cells i))
  unfolding terminal_write poke
  terminal_write-IsPlain [] t v h = (refl, omega arith, λ i. ground arith)
  terminal_write-IsPlain (c ∷ cs) t v h =
      let (drawn, row, column, color) = put_plain c t v.0 v.1 v.2 (omega arith) in
      let t1 = terminal_putchar ports c t in
      let (row', column', cells') = terminal_write-IsPlain cs t1 v.3 (omega arith) in
      (
        omega arith,
        omega arith,
        λ i. ground (arith, cells' i, get_or-step c cs i (t.row * 80 + t.column)),
      )

  -- `terminal_clear` leaves every cell of the screen blank in the current colour, changes
  -- nothing behind it, and puts the cursor on the first cell.
  pub terminal_clear_lem :
      (t : Screen Device)
      → let t' = terminal_clear ports t in
        ((i : ℕ) → t'.cells i ≡ (if ltb i 2000 then blank t.color else t.cells i))
        × OnScreen t'
        × (t'.row ≡ 0)
        × (t'.column ≡ 0)
  unfolding terminal_clear
  terminal_clear_lem t = (
    λ i. ground (arith, fill_rows_lem vga_height 0 (blank t.color) t.cells i),
    omega arith,
    refl,
    refl,
  )
