-- ===== src/Console/Screen.antt =====
-- The screen (kern/terminal.cc) and `VGABuffer`, its copy that scrolls (kern/console.cc).
pub mod Scroll
pub mod Laws
pub mod Bounds
mod Examples
use Prim.Native.Nat.{bit_or}
use chestnut.Base.{
  ℕ, zero, suc, ◌+◌, ◌-◌, ◌*◌, ◌/◌, ◌%◌, ◌^◌, Bool, true, false, ◌||◌, List, [], ◌∷◌, ltb, leb,
  ◌==◌, if◌then◌else◌, store,
}

abbrev pub vga_width : ℕ
vga_width = 80

abbrev pub vga_height : ℕ
vga_height = 25

abbrev pub newline : ℕ
newline = 10

-- The value of a character cell. `char` has a sign: a byte from 128 on fills the upper byte with ones.
unfoldable pub cell : ℕ → ℕ → ℕ → ℕ
cell ch fg bg =
    let color = bit_or fg (bg * 16) % 2 ^ 8 in
    bit_or (if ltb ch 128 then ch else 2 ^ 16 - 2 ^ 8 + ch) (color * 2 ^ 8)

-- `Terminal::DrawChar`, on the cells of the screen; the place is two `uint8`.
unfoldable pub draw_char : ℕ → ℕ → ℕ → ℕ → ℕ → (ℕ → ℕ) → (ℕ → ℕ)
draw_char ch fg bg x y screen =
    let column = x % 2 ^ 8 in
    let row = y % 2 ^ 8 in
    if leb vga_width column || leb vga_height row
    then screen
    else store screen (column + row * vga_width) (cell ch fg bg)

-- `Terminal::DrawString`.
unfoldable pub draw_string : List ℕ → ℕ → ℕ → ℕ → ℕ → (ℕ → ℕ) → (ℕ → ℕ)
draw_string [] fg bg x y screen = screen
draw_string (ch ∷ str) fg bg x y screen =
    draw_string str fg bg (suc x) y (draw_char ch fg bg x y screen)

-- `Terminal::Reset`, for the first `n` cells.
unfoldable pub reset : ℕ → (ℕ → ℕ) → (ℕ → ℕ)
reset zero screen = screen
reset (suc n) screen = store (reset n screen) n (bit_or 3840 32)

-- `DrawChar` with the colors of the terminal, white on black.
unfoldable pub draw : ℕ → ℕ → ℕ → (ℕ → ℕ) → (ℕ → ℕ)
draw ch x y screen = draw_char ch 15 0 x y screen

pub record VgaBuffer : Type 0 where
  pub x : ℕ
  pub y : ℕ
  pub rows : ℕ → ℕ → ℕ
  pub screen : ℕ → ℕ

-- The constructor.
unfoldable pub new_vga_buffer : (ℕ → ℕ) → VgaBuffer
new_vga_buffer screen = record { x = 0; y = 0; rows = λ i j. 0; screen = screen }

unfoldable pub put_cell : ℕ → ℕ → ℕ → (ℕ → ℕ → ℕ) → (ℕ → ℕ → ℕ)
put_cell i j ch rows = store rows i (store (rows i) j ch)

-- The loops of the scroll, each for the first `n` of its rounds.
unfoldable pub copy_row : ℕ → ℕ → (ℕ → ℕ → ℕ) → (ℕ → ℕ → ℕ)
copy_row zero i rows = rows
copy_row (suc n) i rows = let before = copy_row n i rows in put_cell i n (before (suc i) n) before

unfoldable pub copy_rows : ℕ → (ℕ → ℕ → ℕ) → (ℕ → ℕ → ℕ)
copy_rows zero rows = rows
copy_rows (suc m) rows = copy_row vga_width m (copy_rows m rows)

unfoldable pub clear_row : ℕ → ℕ → (ℕ → ℕ → ℕ) → (ℕ → ℕ → ℕ)
clear_row zero i rows = rows
clear_row (suc n) i rows = put_cell i n 0 (clear_row n i rows)

unfoldable pub redraw_row : ℕ → ℕ → (ℕ → ℕ → ℕ) → (ℕ → ℕ) → (ℕ → ℕ)
redraw_row zero i rows screen = screen
redraw_row (suc n) i rows screen = draw (rows i n) n i (redraw_row n i rows screen)

unfoldable pub redraw : ℕ → (ℕ → ℕ → ℕ) → (ℕ → ℕ) → (ℕ → ℕ)
redraw zero rows screen = screen
redraw (suc m) rows screen = redraw_row vga_width m rows (redraw m rows screen)

unfoldable pub scrolled : (ℕ → ℕ → ℕ) → (ℕ → ℕ → ℕ)
scrolled rows = clear_row vga_width (vga_height - 1) (copy_rows (vga_height - 1) rows)

unfoldable pub wrap : VgaBuffer → VgaBuffer
wrap s = if leb vga_width s.x then record s { x = 0; y = s.y + 1 } else s

unfoldable pub scroll : VgaBuffer → VgaBuffer
scroll s =
    if leb vga_height s.y
    then record s {
      y = vga_height - 1;
      rows = scrolled s.rows;
      screen = redraw vga_height (scrolled s.rows) s.screen;
    }
    else s

unfoldable pub put_byte : ℕ → VgaBuffer → VgaBuffer
put_byte ch s = if ch == newline then record s { x = 0; y = s.y + 1 } else record s {
  x = s.x + 1;
  rows = put_cell s.y s.x ch s.rows;
  screen = draw ch s.x s.y s.screen;
}

-- `VGABuffer::WriteByte`.
unfoldable pub write_byte : ℕ → VgaBuffer → VgaBuffer
write_byte ch s = put_byte ch (scroll (wrap s))
