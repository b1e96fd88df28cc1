-- ===== src/Console/Terminal.antt =====
-- An object of class `Terminal` (kern/terminal.h and terminal.cc), with its own place and colors.
pub mod Drawn
use chestnut.Base.{ℕ, ◌%◌, ◌^◌, Bool, List}
use chestnut.Console.Screen.{draw_char, draw_string}

pub data Color : Type 0 where
  black : Color
  blue : Color
  green : Color
  cyan : Color
  red : Color
  magenta : Color
  brown : Color
  light_grey : Color
  dark_grey : Color
  light_blue : Color
  light_green : Color
  light_cyan : Color
  light_red : Color
  light_magenta : Color
  light_brown : Color
  white : Color

unfoldable pub color_code : Color → ℕ
color_code black = 0
color_code blue = 1
color_code green = 2
color_code cyan = 3
color_code red = 4
color_code magenta = 5
color_code brown = 6
color_code light_grey = 7
color_code dark_grey = 8
color_code light_blue = 9
color_code light_green = 10
color_code light_cyan = 11
color_code light_red = 12
color_code light_magenta = 13
color_code light_brown = 14
color_code white = 15

-- `x` and `y` are a `uint8` each; `screen` are the cells of the memory of the display.
pub record Terminal : Type 0 where
  pub x : ℕ
  pub y : ℕ
  pub bg : Color
  pub fg : Color
  pub screen : ℕ → ℕ

unfoldable pub new_terminal : (ℕ → ℕ) → Terminal
new_terminal screen = record { x = 0; y = 0; bg = black; fg = white; screen = screen }

unfoldable pub set_bg : Color → Terminal → Terminal
set_bg bg t = record t { bg = bg }

unfoldable pub set_fg : Color → Terminal → Terminal
set_fg fg t = record t { fg = fg }

-- `DrawChar` and `DrawString` at a place, in the colors of the terminal.
unfoldable pub draw_at : ℕ → ℕ → ℕ → Terminal → Terminal
draw_at ch x y t = record t {
  screen = draw_char ch (color_code t.fg) (color_code t.bg) x y t.screen;
}

unfoldable pub draw_string_at : List ℕ → ℕ → ℕ → Terminal → Terminal
draw_string_at str x y t = record t {
  screen = draw_string str (color_code t.fg) (color_code t.bg) x y t.screen;
}

-- `DrawChar` and `DrawString` at the terminal's own place, which they leave as it is.
unfoldable pub draw_here : ℕ → Terminal → Terminal
draw_here ch t = draw_at ch t.x t.y t

unfoldable pub draw_string_here : List ℕ → Terminal → Terminal
draw_string_here str t = draw_string_at str t.x t.y t
