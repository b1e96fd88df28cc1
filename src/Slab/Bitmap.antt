-- ===== src/Slab/Bitmap.antt =====
-- `BitmapSlab<NBitLine>` and `BaseBitmapSlab`: rows of 64 bits, where 1 is a free object.
pub mod Toggle
pub mod Rows
pub mod Places
pub mod Laws
pub mod OneRow
use Prim.Native.Nat.{bit_and, bit_or, bit_xor}
use chestnut.Base.{
  ℕ, zero, suc, ◌+◌, ◌-◌, ◌*◌, ◌/◌, ◌%◌, ◌^◌, Bool, true, Option, none, some, List, [], ◌∷◌, ltb,
  ◌==◌, if◌then◌else◌, length, get_or, set, replicate,
}
use chestnut.Base.Bits.{testbit}

-- `-1LL` as a 64-bit word.
abbrev pub all_ones : ℕ
all_ones = 2 ^ 64 - 1

-- The index of the lowest bit at 1, from bit `i` on, in `left` bits.
unfoldable pub lowest_bit : ℕ → ℕ → ℕ → ℕ
lowest_bit zero i x = i
lowest_bit (suc left) i x = let rest = lowest_bit left (i + 1) x in if testbit x i then i else rest

-- `__builtin_ctzl`. At 0 its result is undefined: it is the parameter `ctz_zero`.
unfoldable pub ctzl : ℕ → ℕ → ℕ
ctzl ctz_zero x = if x == 0 then ctz_zero else lowest_bit 64 0 x

-- `(1 << idx)`, an `int`, as the 64-bit operand of `^=`: bit 31 is the sign and is repeated above.
-- C++ leaves a shift by 32 or more open.
unfoldable pub one_shifted : ℕ → Option ℕ
one_shifted idx =
    if ltb idx 31 then some (2 ^ idx) else if idx == 31 then some (2 ^ 64 - 2 ^ 31) else none

-- `bitmap_array[row] ^= (1 << idx)`.
unfoldable pub toggle : List ℕ → ℕ → ℕ → Option (List ℕ)
toggle bitmap row idx = elim (one_shifted idx) [
  | none ↦ none
  | some mask ↦ some (set bitmap row (bit_xor (get_or bitmap row 0) mask))
]

-- The loop of `AllocFromBitmapArray`, at row `i`; `idx` and `row` are the best so far.
unfoldable pub best_row : ℕ → List ℕ → ℕ → ℕ → ℕ → ℕ × ℕ
best_row ctz_zero [] i idx row = (idx, row)
best_row ctz_zero (w ∷ ws) i idx row =
    let temp_idx = ctzl ctz_zero w in
    let better = ltb temp_idx idx in
    best_row ctz_zero ws (i + 1) (if better then temp_idx else idx) (if better then i else row)

unfoldable pub alloc : ℕ → List ℕ → Option (ℕ × List ℕ)
alloc ctz_zero bitmap =
    let (idx, row) = best_row ctz_zero bitmap 0 64 0 in
    elim (toggle bitmap row idx) [
      | none ↦ none
      | some bitmap' ↦ some (idx * length bitmap + row, bitmap')
    ]

unfoldable pub free : ℕ → List ℕ → Option (List ℕ)
free obj_idx bitmap = toggle bitmap (obj_idx % length bitmap) (obj_idx / length bitmap)

-- `Init` sets every row, whatever the number of objects is.
unfoldable pub init : List ℕ → List ℕ
init bitmap = replicate (length bitmap) all_ones

-- The loops of `is_empty` and `is_full` over the rows behind the first.
unfoldable pub and_rows : ℕ → List ℕ → ℕ
and_rows bitsum [] = bitsum
and_rows bitsum (w ∷ ws) = and_rows (bit_and bitsum w) ws

unfoldable pub or_rows : ℕ → List ℕ → ℕ
or_rows bitsum [] = bitsum
or_rows bitsum (w ∷ ws) = or_rows (bit_or bitsum w) ws

-- A bitmap has a first row: the template's argument is at least 1.
unfoldable pub is_empty : List ℕ → Bool
is_empty [] = true
is_empty (w ∷ ws) = and_rows w ws == all_ones

unfoldable pub is_full : List ℕ → Bool
is_full [] = true
is_full (w ∷ ws) = or_rows w ws == 0
