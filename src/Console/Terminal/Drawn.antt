-- ===== src/Console/Terminal/Drawn.antt =====
-- The cells that `DrawString` changes.
use chestnut.Base.{
  ℕ, zero, suc, ◌+◌, ◌*◌, ◌%◌, ◌^◌, ◌≤◌, ◌<◌, ◌≡◌, refl, ap, ◌∙◌, ◌⊎◌, inl, some, List, [], ◌∷◌,
  length, get_elem?, arith, false, ◌||◌, leb, store, store_self, store_ne,
}
use chestnut.Console.Screen.{vga_width, vga_height, cell, draw_char, draw_string}
use chestnut.Console.Terminal.{
  Terminal, Color, color_code, set_fg, draw_string_at, draw_string_here,
}

draw_char_inside :
    (ch fg bg x y : ℕ) (screen : ℕ → ℕ)
    → x < vga_width
    → y < vga_height
    → draw_char ch fg bg x y screen ≡ store screen (x + y * vga_width) (cell ch fg bg)
unfolding draw_char
draw_char_inside ch fg bg x y screen hx hy =
    let ex : x % 2 ^ 8 ≡ x = omega arith in
    let ey : y % 2 ^ 8 ≡ y = omega arith in
    let out : (leb vga_width x || leb vga_height y) ≡ false = ground arith in rw (ex, ey, out) refl

-- The cells of a string that fits in its line: each has its character, and the others stay.
record IsDrawn (str : List ℕ) (fg bg x y : ℕ) (before after : ℕ → ℕ) : Type 0 where
  drawn : (i ch : ℕ) → get_elem? str i ≡ some ch → after (x + i + y * vga_width) ≡ cell ch fg bg
  other :
      (a : ℕ) → (a < x + y * vga_width) ⊎ (x + length str + y * vga_width ≤ a) → after a ≡ before a

-- A character in front of a string that is drawn.
cons_drawn :
    (c : ℕ) (str : List ℕ) (fg bg x y : ℕ) (before after : ℕ → ℕ)
    → IsDrawn str fg bg (suc x) y before after
    → before (x + y * vga_width) ≡ cell c fg bg
    → (i ch : ℕ) → get_elem? (c ∷ str) i ≡ some ch
    → after (x + i + y * vga_width) ≡ cell ch fg bg
cons_drawn c str fg bg x y before after rest here zero ch e =
    let same : c ≡ ch = cc e in
    let there : x + 0 + y * vga_width ≡ x + y * vga_width = omega arith in
    rw there (
      rest.other (x + y * vga_width) (inl (omega arith)) ∙ here ∙ ap (λ (d : ℕ). cell d fg bg) same)
cons_drawn c str fg bg x y before after rest here (suc i) ch e =
    let there : x + suc i + y * vga_width ≡ suc x + i + y * vga_width = omega arith in
    rw there (rest.drawn i ch e)

draw_string-IsDrawn :
    (str : List ℕ) (fg bg x y : ℕ) (screen : ℕ → ℕ)
    → x + length str ≤ vga_width
    → y < vga_height
    → IsDrawn str fg bg x y screen (draw_string str fg bg x y screen)
unfolding draw_string
draw_string-IsDrawn [] fg bg x y screen hx hy = record {
  drawn = λ i ch e. cc e;
  other = λ a out. refl;
}
draw_string-IsDrawn (c ∷ str) fg bg x y screen hx hy =
    let rest =
      draw_string-IsDrawn str fg bg (suc x) y (draw_char c fg bg x y screen) (omega arith) hy in
    let first = draw_char_inside c fg bg x y screen (omega arith) hy in
    let at : (a : ℕ)
        → draw_char c fg bg x y screen a ≡ store screen (x + y * vga_width) (cell c fg bg) a =
      λ a. ap (λ (s : ℕ → ℕ). s a) first in
    record {
      drawn =
          cons_drawn c str fg bg x y (draw_char c fg bg x y screen) _ rest
            (at _ ∙ store_self screen (x + y * vga_width) (cell c fg bg));
      other = λ a out.
          rest.other a (ground arith)
          ∙ at a
          ∙ store_ne screen (x + y * vga_width) (cell c fg bg) a (λ e. ground arith);
    }

-- A terminal draws a string at its place, in the color that was set and on its background.
draw_string_here-set_fg :
    (str : List ℕ) (fg : Color) (t : Terminal)
    → t.x + length str ≤ vga_width
    → t.y < vga_height
    → IsDrawn str
        (color_code fg)
        (color_code t.bg)
        t.x
        t.y
        t.screen
        (draw_string_here str (set_fg fg t)).screen
unfolding draw_string_here draw_string_at set_fg
draw_string_here-set_fg str fg t hx hy =
    draw_string-IsDrawn str (color_code fg) (color_code t.bg) t.x t.y t.screen hx hy
