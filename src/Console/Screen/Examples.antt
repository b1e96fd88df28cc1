-- ===== src/Console/Screen/Examples.antt =====
-- The theorems on the screen at concrete states.
use chestnut.Base.{ℕ, ◌+◌, refl, inr, arith}
use chestnut.Console.Screen.{newline, VgaBuffer, new_vga_buffer, reset, write_byte}
use chestnut.Console.Screen.Bounds.{IsInside, write_byte-IsInside}
use chestnut.Console.Screen.Laws.{IsVga, IsScrolled, write_byte-IsVga, write_byte-IsScrolled}

-- The state behind the constructor, and one at the end of the screen.
abbrev blank : ℕ → ℕ
blank = reset 2000 (λ k. 0)

abbrev first : VgaBuffer
first = new_vga_buffer blank

abbrev full : VgaBuffer
full = record { x = 80; y = 24; rows = λ i j. 65 + i; screen = λ k. 3872 }

first-IsVga : IsVga blank first
unfolding new_vga_buffer
first-IsVga = record {
  column = omega arith;
  line = omega arith;
  shown = λ x y hx hy. inr (refl, refl);
}

write_byte-IsVga_example : IsVga blank (write_byte newline (write_byte 72 first))
write_byte-IsVga_example =
    write_byte-IsVga blank newline (write_byte 72 first)
      (write_byte-IsVga blank 72 first first-IsVga)

write_byte-IsScrolled_example : IsScrolled 72 full (write_byte 72 full)
write_byte-IsScrolled_example = write_byte-IsScrolled 72 full (omega arith) (inr (refl, refl))

write_byte-IsInside_example : IsInside full (write_byte 73 full)
write_byte-IsInside_example = write_byte-IsInside 73 full (omega arith) (omega arith)
