-- ===== src/Console/Format/Pieces.antt =====
-- A format string as the pieces that it is written from, and what each piece prints.
use mathlib.Core.List.{reverse, append_assoc, append-nil}
use chestnut.Base.{
  ℕ, zero, suc, ◌%◌, ◌^◌, ◌<◌, ◌≡◌, ◌≢◌, refl, sym, ap, ◌∙◌, Option, none, some, List, [], ◌∷◌,
  ◌++◌, arith, ==_ne, replicate,
}
use chestnut.Console.Format.{
  Argument, number, text, percent, char_c, char_d, char_l, char_s, char_u, char_x, directive,
  unsigned_arg, dec_buffer, hex_buffer, written, print_from, vprintf,
}
use chestnut.Console.Format.Digits.{IsPrinted, ten-IsPrinted, sixteen-IsPrinted}

-- The width of a number: `unsigned int`, `unsigned long`, `unsigned long long`.
pub data Width : Type 0 where
  int_width : Width
  long_width : Width
  long_long_width : Width

unfoldable pub bits : Width → ℕ
bits int_width = 32
bits long_width = 64
bits long_long_width = 64

-- A piece with the argument that it takes.
pub data Piece : Type 0 where
  plain : ℕ → Piece
  char_piece : ℕ → Piece
  string_piece : List ℕ → Piece
  decimal : Width → ℕ → Piece
  unsigned : Width → ℕ → Piece
  hexadecimal : Width → ℕ → Piece

-- The letters `l` of a width, and the conversion behind them.
unfoldable pub letters : Width → ℕ → List ℕ
letters int_width c = c ∷ []
letters long_width c = char_l ∷ c ∷ []
letters long_long_width c = char_l ∷ char_l ∷ c ∷ []

-- How a piece stands in the format string.
unfoldable pub source : Piece → List ℕ
source (plain c) = c ∷ []
source (char_piece n) = percent ∷ char_c ∷ []
source (string_piece s) = percent ∷ char_s ∷ []
source (decimal w n) = percent ∷ letters w char_d
source (unsigned w n) = percent ∷ letters w char_u
source (hexadecimal w n) = percent ∷ letters w char_x

unfoldable pub argument : Piece → List Argument
argument (plain c) = []
argument (char_piece n) = number n ∷ []
argument (string_piece s) = text s ∷ []
argument (decimal w n) = number n ∷ []
argument (unsigned w n) = number n ∷ []
argument (hexadecimal w n) = number n ∷ []

-- What a piece has to print.
unfoldable pub Prints : Piece → List ℕ → Type 0
Prints (plain c) out = out ≡ c ∷ []
Prints (char_piece n) out = out ≡ n % 256 ∷ []
Prints (string_piece s) out = out ≡ s
Prints (decimal w n) out = IsPrinted 10 20 (n % 2 ^ bits w) out
Prints (unsigned w n) out = IsPrinted 10 20 (n % 2 ^ bits w) out
Prints (hexadecimal w n) out = IsPrinted 16 16 (n % 2 ^ bits w) out

-- A plain character is not the sign of a conversion.
unfoldable pub IsPlain : Piece → Type 0
IsPlain (plain c) = c ≢ percent
IsPlain (char_piece n) = Unit {0}
IsPlain (string_piece s) = Unit {0}
IsPlain (decimal w n) = Unit {0}
IsPlain (unsigned w n) = Unit {0}
IsPlain (hexadecimal w n) = Unit {0}

abbrev pub format : List Piece → List ℕ
format [] = []
format (p ∷ ps) = source p ++ format ps

abbrev pub arguments : List Piece → List Argument
arguments [] = []
arguments (p ∷ ps) = argument p ++ arguments ps

abbrev pub AllPlain : List Piece → Type 0
AllPlain [] = Unit {0}
AllPlain (p ∷ ps) = IsPlain p × AllPlain ps

-- The output is the output of the pieces in their order.
abbrev pub Rendered : List Piece → List ℕ → Type 0
Rendered [] out = out ≡ []
Rendered (p ∷ ps) out = (a : List ℕ) × (b : List ℕ) × (out ≡ a ++ b) × Prints p a × Rendered ps b

written-written :
    (a b : List ℕ) (x : Option (List ℕ)) → written a (written b x) ≡ written (a ++ b) x
unfolding written
written-written a b none = refl
written-written a b (some x) = ap some (sym (append_assoc a b x))

written_nil : (x : Option (List ℕ)) → written [] x ≡ x
unfolding written
written_nil none = refl
written_nil (some x) = refl

-- A number with a width: its letters are counted, and the argument is read.
number_next :
    (w : Width) (c n : ℕ) (fmt : List ℕ) (args : List Argument) (out : List ℕ)
    → c ≢ char_l
    → ((l : ℕ)
        → unsigned_arg l n ≡ n % 2 ^ bits w
        → directive c l (number n ∷ args) ≡ some (out, args))
    → print_from none (percent ∷ letters w c ++ fmt) (number n ∷ args)
      ≡ written out (print_from none fmt args)
unfolding print_from letters bits unsigned_arg
number_next int_width c n fmt args out no_l d = rw (==_ne c char_l no_l, d 0 refl) refl
number_next long_width c n fmt args out no_l d = rw (==_ne c char_l no_l, d 1 refl) refl
number_next long_long_width c n fmt args out no_l d = rw (==_ne c char_l no_l, d 2 refl) refl

-- A number of a width has at most 64 bits.
narrow : (w : Width) (n : ℕ) → n % 2 ^ bits w < 2 ^ 64
unfolding bits
narrow int_width n = omega arith
narrow long_width n = omega arith
narrow long_long_width n = omega arith

-- Every piece is printed, whatever follows it.
abbrev Next : Piece → Type 0
Next p =
    (out : List ℕ) × Prints p out
    × ((fmt : List ℕ) (args : List Argument)
        → print_from none (source p ++ fmt) (argument p ++ args)
          ≡ written out (print_from none fmt args))

piece-Next : (p : Piece) → IsPlain p → Next p
unfolding Prints source argument IsPlain print_from directive
piece-Next (plain c) h = (c ∷ [], refl, λ fmt args. rw (==_ne c percent h) refl)
piece-Next (char_piece n) h = (n % 256 ∷ [], refl, λ fmt args. refl)
piece-Next (string_piece s) h = (s, refl, λ fmt args. refl)
piece-Next (decimal w n) h = (
  reverse (dec_buffer (n % 2 ^ bits w)),
  ten-IsPrinted (n % 2 ^ bits w) (narrow w n),
  λ fmt args.
      number_next w char_d n fmt args (reverse (dec_buffer (n % 2 ^ bits w))) (omega arith)
        (λ l e. rw e refl),
)
piece-Next (unsigned w n) h = (
  reverse (dec_buffer (n % 2 ^ bits w)),
  ten-IsPrinted (n % 2 ^ bits w) (narrow w n),
  λ fmt args.
      number_next w char_u n fmt args (reverse (dec_buffer (n % 2 ^ bits w))) (omega arith)
        (λ l e. rw e refl),
)
piece-Next (hexadecimal w n) h = (
  reverse (hex_buffer (n % 2 ^ bits w)),
  sixteen-IsPrinted (n % 2 ^ bits w) (narrow w n),
  λ fmt args.
      number_next w char_x n fmt args (reverse (hex_buffer (n % 2 ^ bits w))) (omega arith)
        (λ l e. rw e refl),
)

pieces-Rendered :
    (ps : List Piece)
    → AllPlain ps
    → (out : List ℕ) × Rendered ps out
      × ((fmt : List ℕ) (args : List Argument)
          → print_from none (format ps ++ fmt) (arguments ps ++ args)
            ≡ written out (print_from none fmt args))
pieces-Rendered [] h = ([], refl, λ fmt args. sym (written_nil (print_from none fmt args)))
pieces-Rendered (p ∷ ps) (h, hs) =
    let (a, prints, first) = piece-Next p h in
    let (b, rest, next) = pieces-Rendered ps hs in
    (
      a ++ b,
      (a, b, refl, prints, rest),
      λ fmt args.
          (λ i.
            print_from none (append_assoc (source p) (format ps) fmt i)
              (append_assoc (argument p) (arguments ps) args i))
          ∙ (first (format ps ++ fmt) (arguments ps ++ args)
              ∙ (ap (written a) (next fmt args) ∙ written-written a b (print_from none fmt args))),
    )

-- A format string made of plain characters and of the conversions, with an argument of the right kind for each:
-- `vprintf` prints it, and the output is that of the pieces in their order. A number of 32 or 64 bits
-- is printed without leading zeros and reads back from the output, and the `buf` of 32 bytes holds it.
pub vprintf-Rendered :
    (ps : List Piece)
    → AllPlain ps
    → (out : List ℕ) × (vprintf (format ps) (arguments ps) ≡ some out) × Rendered ps out
unfolding vprintf print_from written
vprintf-Rendered ps h =
    let (out, rendered, next) = pieces-Rendered ps h in
    (
      out,
      sym (λ i. print_from none (append-nil (format ps) i) (append-nil (arguments ps) i))
          ∙ (next [] [] ∙ ap some (append-nil out)),
      rendered,
    )

print_from_letters :
    (n l : ℕ) (args : List Argument) → print_from (some l) (replicate n char_l) args ≡ none
unfolding print_from
print_from_letters zero l args = refl
print_from_letters (suc n) l args = print_from_letters n (suc l) args

-- A format string whose last piece is a `%` with no conversion, with any number of `l` behind it: the
-- loop reads past the end of the string.
pub vprintf-letters :
    (ps : List Piece) (n : ℕ)
    → AllPlain ps
    → vprintf (format ps ++ (percent ∷ replicate n char_l)) (arguments ps) ≡ none
unfolding vprintf print_from written
vprintf-letters ps n h =
    let (out, rendered, next) = pieces-Rendered ps h in
    sym (λ i.
      print_from none (format ps ++ (percent ∷ replicate n char_l)) (append-nil (arguments ps) i))
    ∙ (next (percent ∷ replicate n char_l) [] ∙ ap (written out) (print_from_letters n 0 []))
