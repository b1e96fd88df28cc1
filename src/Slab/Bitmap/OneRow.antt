-- ===== src/Slab/Bitmap/OneRow.antt =====
-- `BitmapSlab<1>` keeps the interface of a slab whatever `__builtin_ctzl` gives at 0.
use chestnut.Base.{
  ℕ, ◌+◌, ◌*◌, ◌<◌, ◌≡◌, refl, sym, ap, ◌∙◌, false, List, [], ◌∷◌, ◌==◌, arith, length, none, some,
  Option,
}
use chestnut.Slab.{IsSlab}
use chestnut.Slab.Bitmap.{toggle, alloc, is_full, best_row, ctzl, or_rows}
use chestnut.Slab.Bitmap.Laws.{
  IsValid, slot_free, init-IsValid, alloc-IsValid, free-IsValid, is_full_iff, is_empty_iff,
  bitmap_class,
}

-- A row that is not 0 is searched without `__builtin_ctzl` of 0.
some_bit-ctzl : (z w : ℕ) → (w == 0) ≡ false → ctzl z w ≡ ctzl 64 w
unfolding ctzl
some_bit-ctzl z w e = rw e refl

one_row-best :
    (z w : ℕ) → (w == 0) ≡ false → best_row z (w ∷ []) 0 64 0 ≡ best_row 64 (w ∷ []) 0 64 0
unfolding best_row
one_row-best z w e = rw (some_bit-ctzl z w e) refl

one_row-is_full : (w : ℕ) → is_full (w ∷ []) ≡ (w == 0)
unfolding is_full or_rows
one_row-is_full w = refl

-- What `Alloc` does with the row and the bit that it has found.
alloc_at : List ℕ → ℕ × ℕ → Option (ℕ × List ℕ)
alloc_at bitmap (idx, row) = elim (toggle bitmap row idx) [
  | none ↦ none
  | some bitmap' ↦ some (idx * length bitmap + row, bitmap')
]

alloc-alloc_at :
    (z : ℕ) (bitmap : List ℕ) → alloc z bitmap ≡ alloc_at bitmap (best_row z bitmap 0 64 0)
unfolding alloc alloc_at
alloc-alloc_at z bitmap = refl

-- With one row, which is not 0 while the slab is not full, `Alloc` does not look for the lowest bit of 0.
one_row-alloc :
    (ctz_zero : ℕ) (s : List ℕ) → length s ≡ 1 → is_full s ≡ false → alloc ctz_zero s ≡ alloc 64 s
one_row-alloc ctz_zero [] one room = cc one
one_row-alloc ctz_zero (w ∷ []) one room =
    alloc-alloc_at ctz_zero (w ∷ [])
    ∙ ap (alloc_at (w ∷ [])) (one_row-best ctz_zero w (sym (one_row-is_full w) ∙ room))
    ∙ sym (alloc-alloc_at 64 (w ∷ []))
one_row-alloc ctz_zero (w ∷ x ∷ ws) one room = absurd (omega (arith, one))

-- So a `BitmapSlab<1>` keeps the interface whatever `__builtin_ctzl` gives at 0.
pub one_row-IsSlab :
    (ctz_zero : ℕ) → IsSlab (bitmap_class ctz_zero) (λ i. i < 32 * 1) (λ bitmap. length bitmap ≡ 1)
one_row-IsSlab ctz_zero = record {
  Valid = IsValid 64 1 (omega arith) (omega arith);
  slot_free = slot_free 64 1 (omega arith) (omega arith);
  init_lem = init-IsValid 64 1 (omega arith) (omega arith);
  alloc_lem = λ s v room.
      let (i, s', (e, valid, slot, was_free, others)) =
        alloc-IsValid 64 1 (omega arith) (omega arith) s v room in
      (i, s', (one_row-alloc ctz_zero s v.sized room ∙ e, valid, slot, was_free, others));
  free_lem = free-IsValid 64 1 (omega arith) (omega arith);
  is_full_lem = is_full_iff 64 1 (omega arith) (omega arith);
  is_empty_lem = is_empty_iff 64 1 (omega arith) (omega arith);
}
