-- ===== src/Terminal/Screen/Scroll.antt =====
-- The loops of `terminal_scroll` and `terminal_clear` over the text memory.
use szym_os_kernel.Prelude.{
  ℕ, zero, suc, ◌+◌, ◌*◌, ◌≤◌, ◌≡◌, refl, ap, ◌&&◌, arith, ltb, leb, if◌then◌else◌,
}
use szym_os_kernel.Prelude.Bytes.{Memory, poke}
use szym_os_kernel.Terminal.Screen.{
  vga_width, Screen, blank, scroll_row, scroll_rows, fill_row, fill_rows, terminal_scroll,
}

fill_row_lem :
    (n x y entry : ℕ) (cells : Memory) (i : ℕ)
    → fill_row n x y entry cells i
      ≡ (if leb (y * vga_width + x) i && ltb i (y * vga_width + x + n) then entry else cells i)
unfolding fill_row poke
fill_row_lem zero x y entry cells i = ground arith
fill_row_lem (suc n) x y entry cells i =
    ground (arith, fill_row_lem n (x + 1) y entry (poke cells (y * vga_width + x) entry) i)

pub fill_rows_lem :
    (n y entry : ℕ) (cells : Memory) (i : ℕ)
    → fill_rows n y entry cells i
      ≡ (if leb (y * vga_width) i && ltb i ((y + n) * vga_width) then entry else cells i)
unfolding fill_rows
fill_rows_lem zero y entry cells i = ground arith
fill_rows_lem (suc n) y entry cells i = ground (
  arith,
  fill_row_lem vga_width 0 y entry cells i,
  fill_rows_lem n (y + 1) entry (fill_row vga_width 0 y entry cells) i,
)

scroll_row_lem :
    (n x y : ℕ) (cells : Memory) (i : ℕ)
    → x + n ≤ vga_width
    → scroll_row n x y cells i ≡ (
        if leb (y * vga_width + x) i && ltb i (y * vga_width + x + n)
        then cells (i + vga_width)
        else cells i)
unfolding scroll_row poke
scroll_row_lem zero x y cells i h = ground arith
scroll_row_lem (suc n) x y cells i h =
    let a = y * vga_width + x in
    let below : cells ((y + 1) * vga_width + x) ≡ cells (a + vga_width) = ap cells (omega arith) in
    ground (
      arith,
      scroll_row_lem n (x + 1) y (poke cells a (cells ((y + 1) * vga_width + x))) i (omega arith),
    )

scroll_rows_lem :
    (n y : ℕ) (cells : Memory) (i : ℕ)
    → scroll_rows n y cells i ≡ (
        if leb (y * vga_width) i && ltb i ((y + n) * vga_width)
        then cells (i + vga_width)
        else cells i)
unfolding scroll_rows
scroll_rows_lem zero y cells i = ground arith
scroll_rows_lem (suc n) y cells i =
    let cells' = scroll_row vga_width 0 y cells in
    ground (
      arith,
      scroll_row_lem vga_width 0 y cells i (omega arith),
      scroll_row_lem vga_width 0 y cells (i + vga_width) (omega arith),
      scroll_rows_lem n (y + 1) cells' i,
    )

-- The in-place loops of `terminal_scroll` move each row up by one: a cell of the first 24 rows gets
-- what stood below it before the call, the last row is blank in the current colour, nothing behind
-- the 25 rows changes, and the cursor's row is the last.
pub terminal_scroll_lem :
    {Device : Type 0} (t : Screen Device)
    → ((i : ℕ)
        → (terminal_scroll t).cells i ≡ (
            if ltb i 1920
            then t.cells (i + 80)
            else if ltb i 2000
            then blank t.color
            else t.cells i))
      × ((terminal_scroll t).row ≡ 24)
unfolding terminal_scroll
terminal_scroll_lem t = (
  λ i. ground (
    arith,
    fill_row_lem vga_width 0 24 (blank t.color) (scroll_rows 24 0 t.cells) i,
    scroll_rows_lem 24 0 t.cells i,
  ),
  refl,
)

pub column-terminal_scroll :
    {Device : Type 0} (t : Screen Device)
    → ((terminal_scroll t).column ≡ t.column) × ((terminal_scroll t).color ≡ t.color)
unfolding terminal_scroll
column-terminal_scroll t = (refl, refl)
