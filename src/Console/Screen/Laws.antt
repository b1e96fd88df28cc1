-- ===== src/Console/Screen/Laws.antt =====
-- The screen shows the copy, and the cursor stays on it.
use chestnut.Base.{
  ℕ, suc, ◌+◌, ◌-◌, ◌*◌, ◌≤◌, ◌<◌, ◌≡◌, ◌≢◌, refl, ◌∙◌, inl, inr, ◌⊎◌, true, false, Bool-cases, leb,
  ◌==◌, if◌then◌else◌, arith, ==_ne,
}
use chestnut.Console.Screen.{
  vga_width, vga_height, newline, cell, draw, put_cell, redraw, scrolled, VgaBuffer, wrap, scroll,
  put_byte, write_byte,
}
use chestnut.Console.Screen.Scroll.{draw-cell, put_cell-cell, scrolled-cell, redraw-cell}

-- Every cell shows the character of the copy. Where the copy is empty, it may also still show what was on
-- the screen `old` when the copy was made.
abbrev pub Shown : (ℕ → ℕ) → (ℕ → ℕ → ℕ) → (ℕ → ℕ) → Type 0
Shown old rows screen =
    (x y : ℕ)
    → x < vga_width
    → y < vga_height
    → (screen (x + y * vga_width) ≡ cell (rows y x) 15 0)
      ⊎ ((rows y x ≡ 0) × (screen (x + y * vga_width) ≡ old (x + y * vga_width)))

-- The cursor is on the screen, or one place behind a line or the last line.
pub record IsVga (old : ℕ → ℕ) (s : VgaBuffer) : Type 0 where
  pub column : s.x ≤ vga_width
  pub line : s.y ≤ vga_height
  pub shown : Shown old s.rows s.screen

-- The state in which a character is written: the cursor is on the screen.
pub record IsReady (old : ℕ → ℕ) (s : VgaBuffer) : Type 0 where
  pub column : s.x < vga_width
  pub line : s.y < vga_height
  pub shown : Shown old s.rows s.screen

redraw-Shown :
    (old : ℕ → ℕ) (rows : ℕ → ℕ → ℕ) (screen : ℕ → ℕ)
    → Shown old rows (redraw vga_height rows screen)
redraw-Shown old rows screen x y hx hy =
    inl (ground (arith, redraw-cell vga_height x y rows screen (omega arith) hx hy))

scroll-IsReady :
    (old : ℕ → ℕ) (s : VgaBuffer)
    → s.x < vga_width
    → Shown old s.rows s.screen
    → IsReady old (scroll s)
unfolding scroll
scroll-IsReady old s hx shown = elim (Bool-cases (leb vga_height s.y)) [
  | inl full ↦ rw full (record {
    column = hx;
    line = omega arith;
    shown = redraw-Shown old (scrolled s.rows) s.screen;
  })
  | inr room ↦ rw room (record { column = hx; line = ground arith; shown = shown })
]

ready : (old : ℕ → ℕ) (s : VgaBuffer) → IsVga old s → IsReady old (scroll (wrap s))
unfolding wrap
ready old s ok = elim (Bool-cases (leb vga_width s.x)) [
  | inl full ↦ rw full (scroll-IsReady old (record s { x = 0; y = s.y + 1 }) (omega arith) ok.shown)
  | inr room ↦ rw room (scroll-IsReady old s (ground arith) ok.shown)
]

-- A drawn character that is also put in the copy is shown, and the other cells are as they were.
put_cell_drawn :
    (ch i j x y : ℕ) (rows : ℕ → ℕ → ℕ) (screen : ℕ → ℕ)
    → j < vga_width
    → i < vga_height
    → x < vga_width
    → y < vga_height
    → (put_cell i j ch rows y x ≡ rows y x → screen (x + y * vga_width) ≡ cell (rows y x) 15 0)
    → draw ch j i screen (x + y * vga_width) ≡ cell (put_cell i j ch rows y x) 15 0
put_cell_drawn ch i j x y rows screen hj hi hx hy =
    rw (put_cell-cell i j ch x y rows, draw-cell ch j i x y screen hj hi hx hy)
      (elim (Bool-cases (i == y)) [
        | inl a ↦ elim (Bool-cases (j == x)) [
          | inl b ↦ rw (a, b) (λ h. refl)
          | inr b ↦ rw (a, b) (λ h. h refl)
        ]
        | inr a ↦ elim (Bool-cases (j == x)) [
          | inl b ↦ rw (a, b) (λ h. h refl)
          | inr b ↦ rw (a, b) (λ h. h refl)
        ]
      ])

put_cell-Shown :
    (old : ℕ → ℕ) (ch i j : ℕ) (rows : ℕ → ℕ → ℕ) (screen : ℕ → ℕ)
    → j < vga_width
    → i < vga_height
    → Shown old rows screen
    → Shown old (put_cell i j ch rows) (draw ch j i screen)
put_cell-Shown old ch i j rows screen hj hi shown x y hx hy =
    rw (put_cell-cell i j ch x y rows, draw-cell ch j i x y screen hj hi hx hy)
      (elim (Bool-cases (i == y)) [
        | inl a ↦ elim (Bool-cases (j == x)) [
          | inl b ↦ rw (a, b) (inl refl)
          | inr b ↦ rw (a, b) (shown x y hx hy)
        ]
        | inr a ↦ elim (Bool-cases (j == x)) [
          | inl b ↦ rw (a, b) (shown x y hx hy)
          | inr b ↦ rw (a, b) (shown x y hx hy)
        ]
      ])

put_byte-IsVga : (old : ℕ → ℕ) (ch : ℕ) (s : VgaBuffer) → IsReady old s → IsVga old (put_byte ch s)
unfolding put_byte
put_byte-IsVga old ch s ok = elim (Bool-cases (ch == newline)) [
  | inl end ↦
      rw end (record { column = omega arith; line = omega (arith, ok.line); shown = ok.shown })
  | inr char ↦ rw char (record {
    column = omega (arith, ok.column);
    line = omega (arith, ok.line);
    shown = put_cell-Shown old ch s.y s.x s.rows s.screen ok.column ok.line ok.shown;
  })
]

-- `WriteByte` keeps the cursor in its range, and every cell of the screen shows the character of the copy,
-- through every end of a line and every scroll; only a cell whose copy is empty may, instead, still show
-- what was on the screen before the first character.
pub write_byte-IsVga :
    (old : ℕ → ℕ) (ch : ℕ) (s : VgaBuffer) → IsVga old s → IsVga old (write_byte ch s)
unfolding write_byte
write_byte-IsVga old ch s ok = put_byte-IsVga old ch (scroll (wrap s)) (ready old s ok)

-- A line that is full, on the last line of the screen.
pub record IsScrolled (ch : ℕ) (s s' : VgaBuffer) : Type 0 where
  pub column : s'.x ≡ 1
  pub line : s'.y ≡ vga_height - 1
  pub moved : (x y : ℕ) → x < vga_width → y < vga_height - 1 → s'.rows y x ≡ s.rows (suc y) x
  pub last : (x : ℕ) → x < vga_width → s'.rows (vga_height - 1) x ≡ (if 0 == x then ch else 0)
  pub redrawn :
      (x y : ℕ)
      → x < vga_width
      → y < vga_height
      → s'.screen (x + y * vga_width) ≡ cell (s'.rows y x) 15 0

scroll-IsScrolled :
    (ch : ℕ) (t : VgaBuffer)
    → ch ≢ newline
    → t.x ≡ 0
    → leb vga_height t.y ≡ true
    → IsScrolled ch t (put_byte ch (scroll t))
unfolding scroll put_byte
scroll-IsScrolled ch t char hx full =
    let rows = scrolled t.rows in
    rw (full, ==_ne ch newline char)
      (record {
        column = omega (arith, hx);
        line = refl;
        moved = λ x y bx by_row.
            put_cell-cell 24 t.x ch x y rows
            ∙ ground (arith, scrolled-cell x y t.rows bx (omega arith));
        last = λ x bx.
            put_cell-cell 24 t.x ch x 24 rows
            ∙ rw hx (ground (arith, scrolled-cell x 24 t.rows bx (omega arith)));
        redrawn = λ x y bx by_row. rw hx (
            put_cell_drawn ch 24 0 x y rows (redraw vga_height rows t.screen) (omega arith)
              (omega arith) bx by_row
              (λ e.
                ground (arith, redraw-cell vga_height x y rows t.screen (omega arith) bx by_row)));
      })

wrap_room : (s : VgaBuffer) → leb vga_width s.x ≡ false → wrap s ≡ s
unfolding wrap
wrap_room s room = rw room refl

wrap_edge : (s : VgaBuffer) → leb vga_width s.x ≡ true → wrap s ≡ record s { x = 0; y = s.y + 1 }
unfolding wrap
wrap_edge s edge = rw edge refl

-- A character that is written behind the last line: every line moves up by one, the character is the first
-- of the last line, which is empty behind it, and all of the screen is drawn again.
pub write_byte-IsScrolled :
    (ch : ℕ) (s : VgaBuffer)
    → ch ≢ newline
    → ((s.y ≡ vga_height) × (s.x ≡ 0)) ⊎ ((s.y ≡ vga_height - 1) × (s.x ≡ vga_width))
    → IsScrolled ch s (write_byte ch s)
unfolding write_byte
write_byte-IsScrolled ch s char edge = elim edge [
  | inl (hy, hx) ↦
      let room : leb vga_width s.x ≡ false = ground arith in
      let full : leb vga_height s.y ≡ true = ground arith in
      rw (wrap_room s room) (scroll-IsScrolled ch s char hx full)
  | inr (hy, hx) ↦
      let edge : leb vga_width s.x ≡ true = ground arith in
      let full : leb vga_height (s.y + 1) ≡ true = ground arith in
      rw (wrap_edge s edge) (
        let r = scroll-IsScrolled ch (record s { x = 0; y = s.y + 1 }) char refl full in
        record {
          column = r.column;
          line = r.line;
          moved = r.moved;
          last = r.last;
          redrawn = r.redrawn;
        })
]
