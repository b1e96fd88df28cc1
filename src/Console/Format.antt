-- ===== src/Console/Format.antt =====
-- `Console::vprintf` (kern/console.cc). The result is the bytes that it writes, in their order.
pub mod Digits
pub mod Pieces
mod Examples
use chestnut.Base.{
  ℕ, zero, suc, ◌+◌, ◌*◌, ◌/◌, ◌%◌, ◌^◌, Bool, true, false, ◌||◌, Option, none, some, List, [], ◌∷◌,
  ◌++◌, map, ltb, ◌==◌, if◌then◌else◌,
}
use mathlib.Core.List.{reverse}

-- A variable argument: a number, or the string that a pointer leads to.
pub data Argument : Type 0 where
  number : ℕ → Argument
  text : List ℕ → Argument

-- The characters that the code names.
abbrev pub percent : ℕ
percent = 37

abbrev pub char_c : ℕ
char_c = 99

abbrev pub char_d : ℕ
char_d = 100

abbrev pub char_l : ℕ
char_l = 108

abbrev pub char_s : ℕ
char_s = 115

abbrev pub char_u : ℕ
char_u = 117

abbrev pub char_x : ℕ
char_x = 120

-- `'0' + d`, and `hex[d]`.
unfoldable pub dec_char : ℕ → ℕ
dec_char d = 48 + d

unfoldable pub hex_char : ℕ → ℕ
hex_char d = if ltb d 10 then 48 + d else 87 + d

-- The `do` loops, which put the last digit first, for at most `fuel` digits.
unfoldable pub digits : ℕ → ℕ → ℕ → List ℕ
digits zero base u = []
digits (suc fuel) base u =
    let rest = digits fuel base (u / base) in u % base ∷ (if u / base == 0 then [] else rest)

-- `buf`, for a number of 64 bits.
unfoldable pub dec_buffer : ℕ → List ℕ
dec_buffer u = map dec_char (digits 64 10 u)

unfoldable pub hex_buffer : ℕ → List ℕ
hex_buffer u = map hex_char (digits 64 16 u)

-- `va_arg` with the type that the number of `l` asks for.
unfoldable pub unsigned_arg : ℕ → ℕ → ℕ
unsigned_arg l n = if (l == 2) || (l == 1) then n % 2 ^ 64 else n % 2 ^ 32

-- What one directive writes, and the arguments that remain. An argument that is missing or of another kind is `none`.
unfoldable pub directive : ℕ → ℕ → List Argument → Option (List ℕ × List Argument)
directive c l args =
    if c == char_c
    then elim args [
      | [] ↦ none
      | arg ∷ rest ↦ elim arg [ number n ↦ some (n % 256 ∷ [], rest) | text s ↦ none ]
    ]
    else if c == char_s
    then elim args [
      | [] ↦ none
      | arg ∷ rest ↦ elim arg [ number n ↦ none | text s ↦ some (s, rest) ]
    ]
    else if (c == char_d) || ((c == char_u) || (c == char_x))
    then elim args [
      | [] ↦ none
      | arg ∷ rest ↦ elim arg [
        | number n ↦ some (
          reverse (
              if c == char_x then hex_buffer (unsigned_arg l n) else dec_buffer (unsigned_arg l n)),
          rest,
        )
        | text s ↦ none
      ]
    ]
    else some ([], args)

unfoldable pub written : List ℕ → Option (List ℕ) → Option (List ℕ)
written out none = none
written out (some rest) = some (out ++ rest)

-- The loop. `some l` is the label `nextfmt` with `l` counted; there, the end of the string is `none`, as
-- the code goes on behind the terminator.
unfoldable pub print_from : Option ℕ → List ℕ → List Argument → Option (List ℕ)
print_from none [] args = some []
print_from (some l) [] args = none
print_from none (c ∷ fmt) args =
    let next = print_from (some 0) fmt args in
    let rest = print_from none fmt args in if c == percent then next else written (c ∷ []) rest
print_from (some l) (c ∷ fmt) args =
    let more = print_from (some (suc l)) fmt args in
    if c == char_l then more else elim (directive c l args) [
      | none ↦ none
      | some (out, args') ↦ written out (print_from none fmt args')
    ]

unfoldable pub vprintf : List ℕ → List Argument → Option (List ℕ)
vprintf fmt args = print_from none fmt args
