-- ===== src/Slab/Bitmap/Laws.antt =====
-- `BitmapSlab` keeps the interface of a slab, with half of the slots that its page has room for.
use Prim.Native.Nat.{bit_xor}
use native.Mathlib.Nat.{div-add-mod', mod-lt, div-lt_iff_lt-mul}
use chestnut.Base.{
  ℕ, zero, suc, ◌+◌, ◌*◌, ◌/◌, ◌%◌, ◌≤◌, ◌<◌, ◌≡◌, ◌↔◌, refl, sym, ap, ◌∙◌, Bool, true, false, not,
  ◌&&◌, ◌||◌, List, [], ◌∷◌, ◌==◌, arith, inl, inr, Bool-cases, length, get_or, set, length-set,
  get_or-set_self, get_or-set_ne, some, length-replicate,
}
use chestnut.Base.Bits.{testbit, xorb, testbit_zero}
use chestnut.Slab.{SlabClass, IsSlab}
use chestnut.Slab.Bitmap.{all_ones, toggle, alloc, free, init, is_empty, is_full, best_row}
use chestnut.Slab.Bitmap.Toggle.{
  mask_of, one_shifted-mask_of, toggle-IsRow, testbit-toggle, testbit-all_ones, zero-IsRow,
  ones-IsRow,
}
use chestnut.Slab.Bitmap.Rows.{
  AllRows, AllZero, AllOnes, AllRows-get_or, search-Good, is_full_iff_zero, is_empty_iff_ones,
}
use chestnut.Slab.Bitmap.Places.{
  slot_place, same_place, xorb_none, turn_free, turn_used, AllRows-set, replicate-AllRows,
  get_or-replicate,
}

module _ (z n : ℕ) (pos : 0 < n) (wide : 64 ≤ z) where
  pub record IsValid (s : List ℕ) : Type 0 where
    pub sized : length s ≡ n
    rows : AllRows s

  pub slot_free : List ℕ → ℕ → Bool
  slot_free s i = testbit (get_or s (i % n) 0) (i / n)

  row_in : (i : ℕ) → i % n < n
  row_in i = mod-lt i pos

  bit_in : (i : ℕ) → i < 32 * n → i / n < 32
  bit_in i lt = (div-lt_iff_lt-mul {k = n} {x = i} {y = 32} pos).1 lt

  -- `^= (1 << idx)` turns one slot over, and no other.
  toggle-IsValid :
      (s : List ℕ) (i row idx : ℕ)
      → IsValid s
      → row < n
      → idx < 32
      → i ≡ idx * n + row
      → (s' : List ℕ) × (toggle s row idx ≡ some s')
        × IsValid s'
        × ((j : ℕ) → j < 32 * n → slot_free s' j ≡ xorb (slot_free s j) (i == j))
  unfolding toggle slot_free
  toggle-IsValid s i row idx v lt small e =
      let w = get_or s row 0 in
      let w' = bit_xor w (mask_of idx) in
      let r = AllRows-get_or s row v.rows (omega (arith, v.sized)) in
      let place = slot_place n idx row i lt e in
      (
        set s row w',
        rw (one_shifted-mask_of idx small, toggle) refl,
        record {
          sized = length-set s row w' ∙ v.sized;
          rows = AllRows-set s row w' v.rows (toggle-IsRow w idx r small);
        },
        λ j h. elim (Bool-cases (row == j % n)) [
          | inl same ↦
              let e' : row ≡ j % n = ground arith in
              rw
                (
                  ← e',
                  get_or-set_self s row w' 0 (omega (arith, v.sized)),
                  testbit-toggle w idx (j / n) small (bit_in j h),
                )
                (ap (xorb (testbit w (j / n))) (ground (arith, same_place n idx row i j lt e)))
          | inr other ↦
              rw (get_or-set_ne s row (j % n) w' 0 (ground arith))
                (xorb_none _ _ (ground (arith, same_place n idx row i j lt e)))
        ],
      )

  some_row : (s : List ℕ) (r : ℕ) → AllZero s → get_or s r 0 ≡ 0
  some_row [] r zero_rows = refl
  some_row (x ∷ xs) zero (e, zero_rows) = e
  some_row (x ∷ xs) (suc r) (e, zero_rows) = some_row xs r zero_rows

  zeros : (s : List ℕ) → AllRows s → ((r : ℕ) → r < length s → get_or s r 0 ≡ 0) → AllZero s
  zeros [] rows each = tt
  zeros (x ∷ xs) rows each =
      (each 0 (omega arith), zeros xs rows.1 (λ r lt. each (suc r) (omega arith)))

  ones : (s : List ℕ) → AllRows s → ((r : ℕ) → r < length s → get_or s r 0 ≡ all_ones) → AllOnes s
  ones [] rows each = tt
  ones (x ∷ xs) rows each =
      (each 0 (omega arith), ones xs rows.1 (λ r lt. each (suc r) (omega arith)))

  some_ones : (s : List ℕ) (r : ℕ) → r < length s → AllOnes s → get_or s r 0 ≡ all_ones
  some_ones [] r lt one_rows = absurd (omega arith)
  some_ones (x ∷ xs) zero lt (e, one_rows) = e
  some_ones (x ∷ xs) (suc r) lt (e, one_rows) = some_ones xs r (omega arith) one_rows

  -- The slot of bit `q` of row `r`.
  slot_at : (s : List ℕ) (q r : ℕ) → r < n → slot_free s (q * n + r) ≡ testbit (get_or s r 0) q
  unfolding slot_free
  slot_at s q r lt = let (d, m) = slot_place n q r (q * n + r) lt refl in rw (d, m) refl

  slot_in : (q r : ℕ) → q < 32 → r < n → q * n + r < 32 * n
  slot_in q r small lt = grind arith

  pub is_full_iff :
      (s : List ℕ) → IsValid s → (is_full s ≡ true) ↔ ((i : ℕ) → i < 32 * n → slot_free s i ≡ false)
  unfolding slot_free
  is_full_iff s v = (
    λ e i lt. rw (some_row s (i % n) ((is_full_iff_zero s v.rows).0 e), testbit_zero (i / n)) refl,
    λ each. (is_full_iff_zero s v.rows).1 (
        zeros s v.rows (λ r lt. zero-IsRow (get_or s r 0) (AllRows-get_or s r v.rows lt) (λ q small.
          let here : r < n = omega (arith, v.sized) in
          sym (slot_at s q r here) ∙ each (q * n + r) (slot_in q r small here)))),
  )

  pub is_empty_iff :
      (s : List ℕ) → IsValid s → (is_empty s ≡ true) ↔ ((i : ℕ) → i < 32 * n → slot_free s i ≡ true)
  unfolding slot_free
  is_empty_iff s v = (
    λ e i lt.
        rw
          (some_ones s (i % n) (omega (arith, v.sized, row_in i))
            ((is_empty_iff_ones s v.rows).0 e))
          (testbit-all_ones (i / n) (omega (arith, bit_in i lt))),
    λ each. (is_empty_iff_ones s v.rows).1 (
        ones s v.rows (λ r lt. ones-IsRow (get_or s r 0) (AllRows-get_or s r v.rows lt) (λ q small.
          let here : r < n = omega (arith, v.sized) in
          sym (slot_at s q r here) ∙ each (q * n + r) (slot_in q r small here)))),
  )

  pub init-IsValid :
      (s : List ℕ)
      → length s ≡ n
      → IsValid (init s) × ((i : ℕ) → i < 32 * n → slot_free (init s) i ≡ true)
  unfolding init slot_free
  init-IsValid s e = (
    record {
      sized = length-replicate (length s) all_ones ∙ e;
      rows = replicate-AllRows (length s);
    },
    λ i lt.
        rw (e, get_or-replicate n (i % n) (row_in i))
          (testbit-all_ones (i / n) (omega (arith, bit_in i lt))),
  )

  pub alloc-IsValid :
      (s : List ℕ)
      → IsValid s
      → is_full s ≡ false
      → (i : ℕ) × (s' : List ℕ) × ((alloc z s ≡ some (i, s'))
          × IsValid s'
          × (i < 32 * n)
          × (slot_free s i ≡ true)
          × ((j : ℕ) → j < 32 * n → slot_free s' j ≡ (slot_free s j && not (i == j))))
  unfolding alloc
  alloc-IsValid s v some_left =
      let best = best_row z s 0 64 0 in
      let good = search-Good z s wide v.rows some_left in
      let here : best.1 < n = omega (arith, good.0, v.sized) in
      let i = best.0 * n + best.1 in
      let t = toggle-IsValid s i best.1 best.0 v here good.1 refl in
      let free_now : slot_free s i ≡ true = slot_at s best.0 best.1 here ∙ good.2 in
      (
        i,
        t.0,
        (
          rw (t.1, v.sized, alloc) refl,
          t.2,
          slot_in best.0 best.1 good.1 here,
          free_now,
          λ j lt. t.3 j lt ∙ turn_free (slot_free s) i j free_now,
        ),
      )

  pub free-IsValid :
      (i : ℕ) (s : List ℕ)
      → IsValid s
      → i < 32 * n
      → slot_free s i ≡ false
      → (s' : List ℕ) × (free i s ≡ some s')
        × IsValid s'
        × ((j : ℕ) → j < 32 * n → slot_free s' j ≡ ((i == j) || slot_free s j))
  unfolding free
  free-IsValid i s v lt used =
      let t =
        toggle-IsValid s i (i % n) (i / n) v (row_in i) (bit_in i lt) (sym (div-add-mod' i n)) in
      (t.0, rw v.sized t.1, t.2, λ j h. t.3 j h ∙ turn_used (slot_free s) i j used)

-- `BitmapSlab<NBitLine>`, where the parameter is what `__builtin_ctzl` gives at 0.
abbrev pub bitmap_class : ℕ → SlabClass
bitmap_class ctz_zero = record {
  State = List ℕ;
  init = init;
  alloc = alloc ctz_zero;
  free = free;
  is_empty = is_empty;
  is_full = is_full;
}

-- `BitmapSlab<NBitLine>` keeps the interface of a slab with 32 slots for each of its rows, half of
-- the 64 objects that a row has bits for, provided that `__builtin_ctzl` gives at least 64 at 0:
-- after `Init` those slots are free, `Alloc` takes a free slot, `Free` gives back one in use, and
-- `is_full` and `is_empty` say whether no slot and whether every slot is free.
bitmap-IsSlab :
    (ctz_zero rows : ℕ)
    → 64 ≤ ctz_zero
    → 0 < rows
    → IsSlab (bitmap_class ctz_zero) (λ i. i < 32 * rows) (λ bitmap. length bitmap ≡ rows)
bitmap-IsSlab ctz_zero rows wide pos = record {
  Valid = IsValid ctz_zero rows pos wide;
  slot_free = slot_free ctz_zero rows pos wide;
  init_lem = init-IsValid ctz_zero rows pos wide;
  alloc_lem = alloc-IsValid ctz_zero rows pos wide;
  free_lem = free-IsValid ctz_zero rows pos wide;
  is_full_lem = is_full_iff ctz_zero rows pos wide;
  is_empty_lem = is_empty_iff ctz_zero rows pos wide;
}
