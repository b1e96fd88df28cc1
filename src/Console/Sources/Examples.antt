-- ===== src/Console/Sources/Examples.antt =====
-- `printf` on a console with a screen and a serial port.
use chestnut.Base.{ℕ, ◌≡◌, arith, some, List, [], ◌∷◌, ◌++◌, map}
use chestnut.Console.Format.Pieces.{
  Piece, plain, decimal, int_width, IsPlain, AllPlain, Rendered, format, arguments,
}
use chestnut.Console.Screen.{VgaBuffer}
use chestnut.Console.Sources.{
  Source, vga, serial, new_serial_port, add_source, printf, source_bytes, to_port, printf-Rendered,
}

abbrev line : List Piece
line = plain 35 ∷ decimal int_width 120 ∷ plain 10 ∷ []

line-AllPlain : AllPlain line
unfolding IsPlain
line-AllPlain = (omega arith, (tt, (omega arith, tt)))

abbrev screen : VgaBuffer
screen = record { x = 0; y = 0; rows = λ i j. 0; screen = λ k. 3872 }

abbrev sources : List Source
sources = add_source (serial (new_serial_port 1016)) (add_source (vga screen) [])

printf-Rendered_example :
    (out : List ℕ) × Rendered line out
    × (printf (format line) (arguments line) sources ≡ some (map (source_bytes out) sources))
    × ((p : ℕ) (outs : List (ℕ × ℕ))
        → source_bytes out (serial (record { port = p; outs = outs }))
          ≡ serial (record { port = p; outs = outs ++ to_port p out }))
printf-Rendered_example = printf-Rendered line sources line-AllPlain
