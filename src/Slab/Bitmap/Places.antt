-- ===== src/Slab/Bitmap/Places.antt =====
-- The place of an object in the rows, and lists of rows.
use native.Mathlib.Nat.{div-add-mod', le-div_iff_mul-le, div-lt_iff_lt-mul}
use chestnut.Base.{
  ℕ, zero, suc, ◌+◌, ◌*◌, ◌/◌, ◌%◌, ◌≤◌, ◌<◌, ◌≡◌, refl, sym, ap, ◌∙◌, Bool, true, false, not, ◌&&◌,
  ◌||◌, List, [], ◌∷◌, ◌==◌, arith, inl, inr, Bool-cases, get_or, set, replicate,
}
use chestnut.Base.Bits.{xorb}
use chestnut.Slab.Bitmap.{all_ones}
use chestnut.Slab.Bitmap.Toggle.{IsRow, all_ones-IsRow}
use chestnut.Slab.Bitmap.Rows.{AllRows}

quotient_lem : (n q r i : ℕ) → r < n → i ≡ q * n + r → i / n ≡ q
quotient_lem n q r i lt e =
    let least : q ≤ i / n =
      (le-div_iff_mul-le {k = n} {x = q} {y = i} (omega arith)).1 (omega arith) in
    let most : i / n < q + 1 =
      (div-lt_iff_lt-mul {k = n} {x = i} {y = q + 1} (omega arith)).1 (grind arith) in
    omega arith

-- The object of bit `q` of row `r`.
pub slot_place : (n q r i : ℕ) → r < n → i ≡ q * n + r → (i / n ≡ q) × (i % n ≡ r)
slot_place n q r i lt e = let d = quotient_lem n q r i lt e in (d, grind (arith, div-add-mod' i n))

-- Two slots are the same when their rows and their bits are.
pub same_place : (n q r i j : ℕ) → r < n → i ≡ q * n + r → (i == j) ≡ ((r == j % n) && (q == j / n))
same_place n q r i j lt e = elim (Bool-cases (i == j)) [
  | inl same ↦
      let j_place : j ≡ q * n + r = ground arith in
      let (d, m) = slot_place n q r j lt j_place in rw (d, m) (ground arith)
  | inr other ↦ elim (Bool-cases (r == j % n)) [
    | inl same_row ↦ elim (Bool-cases (q == j / n)) [
      | inl same_bit ↦
          let m : r ≡ j % n = ground arith in
          let d : q ≡ j / n = ground arith in
          let whole : i ≡ j = e ∙ rw (m, d) (div-add-mod' j n) in ground (arith, whole)
      | inr _ ↦ ground arith
    ]
    | inr _ ↦ ground arith
  ]
]

pub xorb_none : (a b : Bool) → b ≡ false → a ≡ xorb a b
xorb_none true b e = rw e refl
xorb_none false b e = sym e

-- To turn over a slot that is free is to take it, and one in use, to give it back.
pub turn_free : (f : ℕ → Bool) (i j : ℕ) → f i ≡ true → xorb (f j) (i == j) ≡ (f j && not (i == j))
turn_free f i j e = elim (Bool-cases (i == j)) [
  | inl same ↦ let m : i ≡ j = ground arith in rw (same, sym (ap f m) ∙ e) refl
  | inr other ↦ elim (Bool-cases (f j)) [ inl h ↦ rw (other, h) refl | inr h ↦ rw (other, h) refl ]
]

pub turn_used : (f : ℕ → Bool) (i j : ℕ) → f i ≡ false → xorb (f j) (i == j) ≡ ((i == j) || f j)
turn_used f i j e = elim (Bool-cases (i == j)) [
  | inl same ↦ let m : i ≡ j = ground arith in rw (same, sym (ap f m) ∙ e) refl
  | inr other ↦ elim (Bool-cases (f j)) [ inl h ↦ rw (other, h) refl | inr h ↦ rw (other, h) refl ]
]

pub AllRows-set : (ws : List ℕ) (i w : ℕ) → AllRows ws → IsRow w → AllRows (set ws i w)
AllRows-set [] i w rows r = tt
AllRows-set (x ∷ xs) zero w rows r = (r, rows.1)
AllRows-set (x ∷ xs) (suc i) w rows r = (rows.0, AllRows-set xs i w rows.1 r)

pub replicate-AllRows : (n : ℕ) → AllRows (replicate n all_ones)
replicate-AllRows zero = tt
replicate-AllRows (suc n) = (all_ones-IsRow, replicate-AllRows n)

pub get_or-replicate : (n i : ℕ) → i < n → get_or (replicate n all_ones) i 0 ≡ all_ones
get_or-replicate zero i lt = absurd (omega arith)
get_or-replicate (suc n) zero lt = refl
get_or-replicate (suc n) (suc i) lt = get_or-replicate n i (omega arith)
