-- ===== src/Console/Format/Examples.antt =====
-- The theorems on `vprintf` for concrete format strings.
use chestnut.Base.{ℕ, ◌≡◌, refl, arith, none, some, List, [], ◌∷◌, ◌++◌, replicate}
use chestnut.Console.Format.{
  percent, char_l, directive, print_from, vprintf, written, hex_buffer, digits, unsigned_arg,
  hex_char,
}
use chestnut.Console.Format.Pieces.{
  letters, source, argument, Piece, plain, string_piece, hexadecimal, decimal, long_width,
  int_width, format, arguments, Rendered, IsPlain, AllPlain, vprintf-Rendered, vprintf-letters,
}

-- `"=%lx %s"` and `"=%d"`.
abbrev line : List Piece
line = plain 61 ∷ hexadecimal long_width 753664 ∷ plain 32 ∷ string_piece (79 ∷ 75 ∷ []) ∷ []

abbrev short_line : List Piece
short_line = plain 61 ∷ decimal int_width 4294967299 ∷ []

line-AllPlain : AllPlain line
unfolding IsPlain
line-AllPlain = (omega arith, (tt, (omega arith, (tt, tt))))

short_line-AllPlain : AllPlain short_line
unfolding IsPlain
short_line-AllPlain = (omega arith, (tt, tt))

-- `"=b8000 OK"`
line_printed :
    vprintf (format line) (arguments line) ≡ some (61 ∷ 98 ∷ 56 ∷ 48 ∷ 48 ∷ 48 ∷ 32 ∷ 79 ∷ 75 ∷ [])
unfolding vprintf print_from source argument directive written letters hex_buffer digits
    unsigned_arg hex_char
line_printed = refl

vprintf-Rendered_example :
    (out : List ℕ) × (vprintf (format line) (arguments line) ≡ some out) × Rendered line out
vprintf-Rendered_example = vprintf-Rendered line line-AllPlain

vprintf-letters_example :
    vprintf (format short_line ++ (percent ∷ replicate 2 char_l)) (arguments short_line) ≡ none
vprintf-letters_example = vprintf-letters short_line 2 short_line-AllPlain
