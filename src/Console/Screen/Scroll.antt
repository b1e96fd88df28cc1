-- ===== src/Console/Screen/Scroll.antt =====
-- The loops of the scroll and of the drawing, cell by cell.
use chestnut.Base.{
  ℕ, zero, suc, ◌+◌, ◌-◌, ◌*◌, ◌%◌, ◌^◌, ◌≤◌, ◌<◌, ◌≡◌, refl, inl, inr, false, ◌||◌, ◌&&◌,
  Bool-cases, ltb, leb, ◌==◌, if◌then◌else◌, arith,
}
use chestnut.Console.Screen.{
  vga_width, vga_height, cell, draw_char, draw, put_cell, copy_row, copy_rows, clear_row,
  redraw_row, redraw, scrolled,
}

-- A drawn character changes its own cell only.
pub draw-cell :
    (ch n i x y : ℕ) (screen : ℕ → ℕ)
    → n < vga_width
    → i < vga_height
    → x < vga_width
    → y < vga_height
    → draw ch n i screen (x + y * vga_width)
      ≡ (if (n == x) && (i == y) then cell ch 15 0 else screen (x + y * vga_width))
unfolding draw draw_char
draw-cell ch n i x y screen hn hi hx hy =
    let en : n % 2 ^ 8 ≡ n = omega arith in
    let ei : i % 2 ^ 8 ≡ i = omega arith in
    let inside : (leb 80 n || leb 25 i) ≡ false = ground arith in rw (en, ei, inside) (ground arith)

pub put_cell-cell :
    (i j ch x y : ℕ) (rows : ℕ → ℕ → ℕ)
    → put_cell i j ch rows y x ≡ (if (i == y) && (j == x) then ch else rows y x)
unfolding put_cell
put_cell-cell i j ch x y rows = elim (Bool-cases (i == y)) [
  | inl same ↦ let e : i ≡ y = ground arith in rw same (rw e refl)
  | inr other ↦ rw other refl
]

-- A row is copied from the next one.
copy_row-cell :
    (n i x y : ℕ) (rows : ℕ → ℕ → ℕ)
    → copy_row n i rows y x ≡ (if (i == y) && ltb x n then rows (suc i) x else rows y x)
unfolding copy_row
copy_row-cell zero i x y rows = ground arith
copy_row-cell (suc n) i x y rows =
    let here = copy_row-cell n i x y rows in
    let next = copy_row-cell n i n (suc i) rows in
    rw (put_cell-cell i n (copy_row n i rows (suc i) n) x y (copy_row n i rows))
      (elim (Bool-cases (n == x)) [
        | inl same ↦
            let e : x ≡ n = ground arith in rw e (ground (arith, next, copy_row-cell n i n y rows))
        | inr other ↦ ground (arith, here, other)
      ])

clear_row-cell :
    (n i x y : ℕ) (rows : ℕ → ℕ → ℕ)
    → clear_row n i rows y x ≡ (if (i == y) && ltb x n then 0 else rows y x)
unfolding clear_row
clear_row-cell zero i x y rows = ground arith
clear_row-cell (suc n) i x y rows =
    rw (put_cell-cell i n 0 x y (clear_row n i rows)) (ground (arith, clear_row-cell n i x y rows))

copy_rows-cell :
    (m x y : ℕ) (rows : ℕ → ℕ → ℕ)
    → x < vga_width
    → copy_rows m rows y x ≡ (if ltb y m then rows (suc y) x else rows y x)
unfolding copy_rows
copy_rows-cell zero x y rows hx = ground arith
copy_rows-cell (suc m) x y rows hx =
    let here = copy_rows-cell m x y rows hx in
    let next = copy_rows-cell m x (suc m) rows hx in
    rw (copy_row-cell vga_width m x y (copy_rows m rows)) (elim (Bool-cases (m == y)) [
      | inl same ↦ let e : y ≡ m = ground arith in rw e (ground (arith, next, hx))
      | inr other ↦ ground (arith, here, other)
    ])

-- The scroll moves every line up and leaves the last one empty.
pub scrolled-cell :
    (x y : ℕ) (rows : ℕ → ℕ → ℕ)
    → x < vga_width
    → y < vga_height
    → scrolled rows y x ≡ (if y == vga_height - 1 then 0 else rows (suc y) x)
unfolding scrolled
scrolled-cell x y rows hx hy =
    rw (clear_row-cell vga_width 24 x y (copy_rows 24 rows))
      (ground (arith, copy_rows-cell 24 x y rows hx))

redraw_row-cell :
    (n i x y : ℕ) (rows : ℕ → ℕ → ℕ) (screen : ℕ → ℕ)
    → n ≤ vga_width
    → i < vga_height
    → x < vga_width
    → y < vga_height
    → redraw_row n i rows screen (x + y * vga_width)
      ≡ (if (i == y) && ltb x n then cell (rows y x) 15 0 else screen (x + y * vga_width))
unfolding redraw_row
redraw_row-cell zero i x y rows screen hn hi hx hy = ground arith
redraw_row-cell (suc n) i x y rows screen hn hi hx hy =
    rw (draw-cell (rows i n) n i x y (redraw_row n i rows screen) (omega arith) hi hx hy)
      (elim (Bool-cases (n == x)) [
        | inl same_x ↦
            let e : x ≡ n = ground arith in
            elim (Bool-cases (i == y)) [
              | inl same_y ↦ let f : y ≡ i = ground arith in rw (e, f) (ground arith)
              | inr other_y ↦
                  ground
                    (arith, redraw_row-cell n i x y rows screen (omega arith) hi hx hy, other_y)
            ]
        | inr other_x ↦
            ground (arith, redraw_row-cell n i x y rows screen (omega arith) hi hx hy, other_x)
      ])

pub redraw-cell :
    (m x y : ℕ) (rows : ℕ → ℕ → ℕ) (screen : ℕ → ℕ)
    → m ≤ vga_height
    → x < vga_width
    → y < vga_height
    → redraw m rows screen (x + y * vga_width)
      ≡ (if ltb y m then cell (rows y x) 15 0 else screen (x + y * vga_width))
unfolding redraw
redraw-cell zero x y rows screen hm hx hy = ground arith
redraw-cell (suc m) x y rows screen hm hx hy =
    rw
      (redraw_row-cell vga_width m x y rows (redraw m rows screen) (omega arith) (omega arith) hx
        hy)
      (ground (arith, redraw-cell m x y rows screen (omega arith) hx hy))
