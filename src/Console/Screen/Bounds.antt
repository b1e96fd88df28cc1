-- ===== src/Console/Screen/Bounds.antt =====
-- What `VGABuffer::WriteByte` writes lies in the screen and in the copy.
use chestnut.Base.{
  ℕ, zero, suc, ◌+◌, ◌*◌, ◌%◌, ◌^◌, ◌≤◌, ◌<◌, ◌≡◌, refl, ◌⊎◌, inl, inr, ◌∙◌, ◌||◌, Bool-cases, leb,
  ◌==◌, store_ne, arith,
}
use chestnut.Console.Screen.{
  vga_width, vga_height, newline, cell, draw_char, draw, put_cell, copy_row, copy_rows, clear_row,
  redraw_row, redraw, scrolled, VgaBuffer, wrap, scroll, put_byte, write_byte,
}
use chestnut.Console.Screen.Scroll.{put_cell-cell}

abbrev pub screen_size : ℕ
screen_size = 2000

-- `DrawChar` writes in the screen, whatever its arguments are.
draw_outside : (ch x y k : ℕ) (screen : ℕ → ℕ) → screen_size ≤ k → draw ch x y screen k ≡ screen k
unfolding draw draw_char
draw_outside ch x y k screen out =
    elim (Bool-cases (leb vga_width (x % 2 ^ 8) || leb vga_height (y % 2 ^ 8))) [
      | inl off ↦ rw off refl
      | inr on ↦
          let column : x % 2 ^ 8 < vga_width = ground arith in
          let line : y % 2 ^ 8 < vga_height = ground arith in
          rw on (
            store_ne screen (x % 2 ^ 8 + y % 2 ^ 8 * vga_width) (cell ch 15 0) k
              (λ e. omega (arith, e, column, line, out)))
    ]

redraw_row_outside :
    (n i k : ℕ) (rows : ℕ → ℕ → ℕ) (screen : ℕ → ℕ)
    → screen_size ≤ k
    → redraw_row n i rows screen k ≡ screen k
unfolding redraw_row
redraw_row_outside zero i k rows screen out = refl
redraw_row_outside (suc n) i k rows screen out =
    draw_outside (rows i n) n i k (redraw_row n i rows screen) out
    ∙ redraw_row_outside n i k rows screen out

redraw_outside :
    (m k : ℕ) (rows : ℕ → ℕ → ℕ) (screen : ℕ → ℕ)
    → screen_size ≤ k
    → redraw m rows screen k ≡ screen k
unfolding redraw
redraw_outside zero k rows screen out = refl
redraw_outside (suc m) k rows screen out =
    redraw_row_outside vga_width m k rows (redraw m rows screen) out
    ∙ redraw_outside m k rows screen out

-- A place outside of the copy.
abbrev pub IsBeyond : ℕ → ℕ → Type 0
IsBeyond x y = (vga_width ≤ x) ⊎ (vga_height ≤ y)

put_cell_outside :
    (i j ch x y : ℕ) (rows : ℕ → ℕ → ℕ)
    → i < vga_height
    → j < vga_width
    → IsBeyond x y
    → put_cell i j ch rows y x ≡ rows y x
put_cell_outside i j ch x y rows hi hj out = ground (arith, put_cell-cell i j ch x y rows)

copy_row_outside :
    (n i x y : ℕ) (rows : ℕ → ℕ → ℕ)
    → i < vga_height
    → n ≤ vga_width
    → IsBeyond x y
    → copy_row n i rows y x ≡ rows y x
unfolding copy_row
copy_row_outside zero i x y rows hi hn out = refl
copy_row_outside (suc n) i x y rows hi hn out =
    put_cell_outside i n (copy_row n i rows (suc i) n) x y (copy_row n i rows) hi (omega arith) out
    ∙ copy_row_outside n i x y rows hi (omega arith) out

copy_rows_outside :
    (m x y : ℕ) (rows : ℕ → ℕ → ℕ) → m ≤ vga_height → IsBeyond x y → copy_rows m rows y x ≡ rows y x
unfolding copy_rows
copy_rows_outside zero x y rows hm out = refl
copy_rows_outside (suc m) x y rows hm out =
    copy_row_outside vga_width m x y (copy_rows m rows) (omega arith) (omega arith) out
    ∙ copy_rows_outside m x y rows (omega arith) out

clear_row_outside :
    (n i x y : ℕ) (rows : ℕ → ℕ → ℕ)
    → i < vga_height
    → n ≤ vga_width
    → IsBeyond x y
    → clear_row n i rows y x ≡ rows y x
unfolding clear_row
clear_row_outside zero i x y rows hi hn out = refl
clear_row_outside (suc n) i x y rows hi hn out =
    put_cell_outside i n 0 x y (clear_row n i rows) hi (omega arith) out
    ∙ clear_row_outside n i x y rows hi (omega arith) out

-- Nothing outside the screen and the copy has changed.
pub record IsInside (s s' : VgaBuffer) : Type 0 where
  pub screen : (k : ℕ) → screen_size ≤ k → s'.screen k ≡ s.screen k
  pub rows : (x y : ℕ) → IsBeyond x y → s'.rows y x ≡ s.rows y x

wrap-IsInside : (s : VgaBuffer) → IsInside s (wrap s)
unfolding wrap
wrap-IsInside s = elim (Bool-cases (leb vga_width s.x)) [
  | inl e ↦ rw e (record { screen = λ k out. refl; rows = λ x y out. refl })
  | inr e ↦ rw e (record { screen = λ k out. refl; rows = λ x y out. refl })
]

scroll-IsInside : (s : VgaBuffer) → IsInside s (scroll s)
unfolding scroll scrolled
scroll-IsInside s = elim (Bool-cases (leb vga_height s.y)) [
  | inl e ↦ rw e (record {
    screen = λ k out. redraw_outside vga_height k (scrolled s.rows) s.screen out;
    rows = λ x y out.
        clear_row_outside vga_width 24 x y (copy_rows 24 s.rows) (omega arith) (omega arith) out
        ∙ copy_rows_outside 24 x y s.rows (omega arith) out;
  })
  | inr e ↦ rw e (record { screen = λ k out. refl; rows = λ x y out. refl })
]

put_byte-IsInside :
    (ch : ℕ) (s : VgaBuffer) → s.x < vga_width → s.y < vga_height → IsInside s (put_byte ch s)
unfolding put_byte
put_byte-IsInside ch s hx hy = elim (Bool-cases (ch == newline)) [
  | inl e ↦ rw e (record { screen = λ k out. refl; rows = λ x y out. refl })
  | inr e ↦ rw e (record {
    screen = λ k out. draw_outside ch s.x s.y k s.screen out;
    rows = λ x y out. put_cell_outside s.y s.x ch x y s.rows hy hx out;
  })
]

IsInside-trans : (a b c : VgaBuffer) → IsInside a b → IsInside b c → IsInside a c
IsInside-trans a b c p q = record {
  screen = λ k out. q.screen k out ∙ p.screen k out;
  rows = λ x y out. q.rows x y out ∙ p.rows x y out;
}

-- The character is written on the screen.
ready_cursor :
    (s : VgaBuffer)
    → s.x ≤ vga_width
    → s.y ≤ vga_height
    → ((scroll (wrap s)).x < vga_width) × ((scroll (wrap s)).y < vga_height)
unfolding scroll wrap
ready_cursor s column line = elim (Bool-cases (leb vga_width s.x)) [
  | inl full ↦ elim (Bool-cases (leb vga_height (s.y + 1))) [
    | inl low ↦ rw (full, low) (omega arith, omega arith)
    | inr room ↦ rw (full, room) (omega arith, ground arith)
  ]
  | inr more ↦ elim (Bool-cases (leb vga_height s.y)) [
    | inl low ↦ rw (more, low) (ground arith, omega arith)
    | inr room ↦ rw (more, room) (ground arith, ground arith)
  ]
]

-- With the cursor in its range, `WriteByte` changes only cells of the screen, which has 2000 of them, and only
-- characters of the copy of 25 lines of 80, also where it scrolls.
pub write_byte-IsInside :
    (ch : ℕ) (s : VgaBuffer) → s.x ≤ vga_width → s.y ≤ vga_height → IsInside s (write_byte ch s)
unfolding write_byte
write_byte-IsInside ch s column line =
    let (inside_x, inside_y) = ready_cursor s column line in
    IsInside-trans s (scroll (wrap s)) (put_byte ch (scroll (wrap s)))
      (IsInside-trans s (wrap s) (scroll (wrap s)) (wrap-IsInside s) (scroll-IsInside (wrap s)))
      (put_byte-IsInside ch (scroll (wrap s)) inside_x inside_y)
