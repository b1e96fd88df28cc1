-- ===== src/Slab/Bitmap/Rows.antt =====
-- All rows of a bitmap: the search for the lowest object, and the tests over all rows.
use Prim.Native.Nat.{bit_and, bit_or}
use chestnut.Base.{
  ℕ, zero, suc, ◌+◌, ◌^◌, ◌≤◌, ◌<◌, ◌≡◌, ◌⊎◌, ◌↔◌, refl, ap, true, false, List, [], ◌∷◌, ltb, ◌==◌,
  if◌then◌else◌, arith, inl, inr, Bool-cases, length, get_or, ==_iff,
}
use chestnut.Base.Bits.{
  testbit, testbit-bit_or, testbit-bit_and, testbit_zero, testbit_ext, bit_or-lt, bit_and-lt,
}
use chestnut.Slab.Bitmap.{all_ones, ctzl, best_row, and_rows, or_rows, is_empty, is_full}
use chestnut.Slab.Bitmap.Toggle.{IsRow, ctzl-IsRow, testbit-all_ones}

abbrev pub AllRows : List ℕ → Type 0
AllRows [] = Unit {0}
AllRows (w ∷ ws) = IsRow w × AllRows ws

pub AllRows-get_or : (ws : List ℕ) (r : ℕ) → AllRows ws → r < length ws → IsRow (get_or ws r 0)
AllRows-get_or [] r all lt = absurd (omega arith)
AllRows-get_or (w ∷ ws) zero all lt = all.0
AllRows-get_or (w ∷ ws) (suc r) all lt = AllRows-get_or ws r all.1 (omega arith)

-- Bit `idx` of row `row` is a free object.
abbrev pub Good : List ℕ → ℕ → ℕ → Type 0
Good all idx row = (row < length all) × (idx < 32) × (testbit (get_or all row 0) idx ≡ true)

abbrev pub AllZero : List ℕ → Type 0
AllZero [] = Unit {0}
AllZero (w ∷ ws) = (w ≡ 0) × AllZero ws

ctzl-zero : (z w : ℕ) → w ≡ 0 → ctzl z w ≡ z
unfolding ctzl
ctzl-zero z w e = ground arith

-- The rows `ws` are those of `all` from row `i` on.
record IsTail (all ws : List ℕ) (i : ℕ) : Type 0 where
  ends : i + length ws ≡ length all
  rows : (k : ℕ) → k < length ws → get_or ws k 0 ≡ get_or all (i + k) 0

IsTail-next :
    (all : List ℕ) (w : ℕ) (ws : List ℕ) (i : ℕ) → IsTail all (w ∷ ws) i → IsTail all ws (i + 1)
IsTail-next all w ws i t = record {
  ends = omega (arith, t.ends);
  rows =
      λ k lt. let e : i + suc k ≡ i + 1 + k = omega arith in rw e at (t.rows (suc k) (omega arith));
}

IsTail-first :
    (all : List ℕ) (w : ℕ) (ws : List ℕ) (i : ℕ) → IsTail all (w ∷ ws) i → w ≡ get_or all i 0
IsTail-first all w ws i t = let e : i + 0 ≡ i = omega arith in rw e at (t.rows 0 (omega arith))

module _ (z : ℕ) (wide : 64 ≤ z) (all : List ℕ) where
  -- The best so far, before a row and after it.
  abbrev Best : ℕ → ℕ → Type 0
  Best idx row = Good all idx row ⊎ (idx ≡ 64)

  step-Best :
      (w i idx row : ℕ)
      → i < length all
      → w ≡ get_or all i 0
      → IsRow w
      → Best idx row
      → let b = ltb (ctzl z w) idx in
        Good all (if b then ctzl z w else idx) (if b then i else row)
        ⊎ (((if b then ctzl z w else idx) ≡ 64) × (idx ≡ 64) × (w ≡ 0))
  step-Best w i idx row lt same r best = elim (Bool-cases (w == 0)) [
    | inl zero_row ↦ ground (arith, ctzl-zero z w)
    | inr some_bit ↦ elim (Bool-cases (ltb (ctzl z w) idx)) [
      | inl yes_better ↦
          let c = ctzl-IsRow z w r (ground arith) in rw yes_better (inl (lt, c.0, rw (← same) c.1))
      | inr no_better ↦ let c = ctzl-IsRow z w r (ground arith) in ground (arith, c.0)
    ]
  ]

  -- The search finds a free object, if the best so far is one or a row to come is not 0.
  best_row-Good :
      (ws : List ℕ) (i idx row : ℕ)
      → IsTail all ws i
      → AllRows ws
      → Best idx row
      → Good all (best_row z ws i idx row).0 (best_row z ws i idx row).1 ⊎ ((idx ≡ 64) × AllZero ws)
  unfolding best_row
  best_row-Good [] i idx row t rows (inl good) = inl good
  best_row-Good [] i idx row t rows (inr start) = inr (start, tt)
  best_row-Good (w ∷ ws) i idx row t rows best =
      elim (step-Best w i idx row (omega (arith, t.ends)) (IsTail-first all w ws i t) rows.0 best) [
        | inl good ↦
            elim (best_row-Good ws (i + 1) _ _ (IsTail-next all w ws i t) rows.1 (inl good)) [
              | inl found ↦ inl found
              | inr (start, zero_rows) ↦ absurd (omega (arith, good.1))
            ]
        | inr (start', start, zero_row) ↦
            elim (best_row-Good ws (i + 1) _ _ (IsTail-next all w ws i t) rows.1 (inr start')) [
              | inl found ↦ inl found
              | inr (_, zero_rows) ↦ inr (start, (zero_row, zero_rows))
            ]
      ]

abbrev pub AllOnes : List ℕ → Type 0
AllOnes [] = Unit {0}
AllOnes (w ∷ ws) = (w ≡ all_ones) × AllOnes ws

-- What an `|` of 0 and an `&` of ones say of the two sides.
or-left : (a b : ℕ) → a < 2 ^ 64 → bit_or a b ≡ 0 → a ≡ 0
or-left a b small e = testbit_ext 64 a 0 small (omega arith) (λ i lt.
    let t : testbit (bit_or a b) i ≡ testbit 0 i = ap (λ (x : ℕ). testbit x i) e in
    ground (arith, t, testbit-bit_or a b i, testbit_zero i))

or-right : (a b : ℕ) → b < 2 ^ 64 → bit_or a b ≡ 0 → b ≡ 0
or-right a b small e = testbit_ext 64 b 0 small (omega arith) (λ i lt.
    let t : testbit (bit_or a b) i ≡ testbit 0 i = ap (λ (x : ℕ). testbit x i) e in
    ground (arith, t, testbit-bit_or a b i, testbit_zero i))

and-left : (a b : ℕ) → a < 2 ^ 64 → bit_and a b ≡ all_ones → a ≡ all_ones
and-left a b small e = testbit_ext 64 a all_ones small (omega arith) (λ i lt.
    let t : testbit (bit_and a b) i ≡ testbit all_ones i = ap (λ (x : ℕ). testbit x i) e in
    ground (arith, t, testbit-bit_and a b i, testbit-all_ones i lt))

and-right : (a b : ℕ) → b < 2 ^ 64 → bit_and a b ≡ all_ones → b ≡ all_ones
and-right a b small e = testbit_ext 64 b all_ones small (omega arith) (λ i lt.
    let t : testbit (bit_and a b) i ≡ testbit all_ones i = ap (λ (x : ℕ). testbit x i) e in
    ground (arith, t, testbit-bit_and a b i, testbit-all_ones i lt))

-- `is_full`: no row has a bit.
or_rows-zero :
    (w : ℕ) (ws : List ℕ) → w < 2 ^ 64 → AllRows ws → or_rows w ws ≡ 0 → (w ≡ 0) × AllZero ws
unfolding or_rows
or_rows-zero w [] small rows e = (e, tt)
or_rows-zero w (x ∷ xs) small rows e =
    let (both, rest) =
      or_rows-zero (bit_or w x) xs (bit_or-lt 64 w x small rows.0.small) rows.1 e in
    (or-left w x small both, (or-right w x rows.0.small both, rest))

zero-or_rows : (ws : List ℕ) → AllZero ws → or_rows 0 ws ≡ 0
unfolding or_rows
zero-or_rows [] z = refl
zero-or_rows (x ∷ xs) (e, z) = rw e (zero-or_rows xs z)

-- `is_empty`: every bit of every row is set.
and_rows-ones :
    (w : ℕ) (ws : List ℕ)
    → w < 2 ^ 64
    → AllRows ws
    → and_rows w ws ≡ all_ones
    → (w ≡ all_ones) × AllOnes ws
unfolding and_rows
and_rows-ones w [] small rows e = (e, tt)
and_rows-ones w (x ∷ xs) small rows e =
    let (both, rest) =
      and_rows-ones (bit_and w x) xs (bit_and-lt 64 w x small rows.0.small) rows.1 e in
    (and-left w x small both, (and-right w x rows.0.small both, rest))

ones-and_rows : (ws : List ℕ) → AllOnes ws → and_rows all_ones ws ≡ all_ones
unfolding and_rows
ones-and_rows [] z = refl
ones-and_rows (x ∷ xs) (e, z) = rw e (ones-and_rows xs z)

no_bit : (ws : List ℕ) (i j : ℕ) → AllZero ws → testbit (get_or ws i 0) j ≡ false
no_bit [] i j z = testbit_zero j
no_bit (x ∷ xs) zero j (e, z) = rw e (testbit_zero j)
no_bit (x ∷ xs) (suc i) j (e, z) = no_bit xs i j z

pub is_full_iff_zero : (ws : List ℕ) → AllRows ws → (is_full ws ≡ true) ↔ AllZero ws
unfolding is_full
is_full_iff_zero [] rows = (λ e. tt, λ z. refl)
is_full_iff_zero (w ∷ ws) rows = (
  λ e. or_rows-zero w ws rows.0.small rows.1 ((==_iff (or_rows w ws) 0).0 e),
  λ z. rw z.0 ((==_iff (or_rows 0 ws) 0).1 (zero-or_rows ws z.1)),
)

pub is_empty_iff_ones : (ws : List ℕ) → AllRows ws → (is_empty ws ≡ true) ↔ AllOnes ws
unfolding is_empty
is_empty_iff_ones [] rows = (λ e. tt, λ z. refl)
is_empty_iff_ones (w ∷ ws) rows = (
  λ e. and_rows-ones w ws rows.0.small rows.1 ((==_iff (and_rows w ws) all_ones).0 e),
  λ z. rw z.0 ((==_iff (and_rows all_ones ws) all_ones).1 (ones-and_rows ws z.1)),
)

-- With a row that is not 0, the search gives a free object.
pub search-Good :
    (z : ℕ) (ws : List ℕ)
    → 64 ≤ z
    → AllRows ws
    → is_full ws ≡ false
    → Good ws (best_row z ws 0 64 0).0 (best_row z ws 0 64 0).1
search-Good z ws wide rows some_left =
    elim (best_row-Good z wide ws ws 0 64 0
      (record { ends = omega arith; rows = λ k lt. ap (λ (m : ℕ). get_or ws m 0) (omega arith) })
      rows (inr refl)) [
        | inl good ↦ good
        | inr (_, all_zero) ↦ cc ((is_full_iff_zero ws rows).1 all_zero, some_left)
      ]
