-- ===== src/Slab/SizeClass/Laws.antt =====
-- The cache that fits is the smallest, and `Free` goes the way that `Alloc` went.
use chestnut.Base.{
  false, ℕ, zero, suc, ◌+◌, ◌-◌, ◌*◌, ◌/◌, ◌^◌, ◌≤◌, ◌<◌, ◌≡◌, ◌⊎◌, true, refl, inl, inr, arith,
  Bool-cases, some, leb, ltb, ◌==◌, get_or, ap, ◌∙◌,
}
use chestnut.Base.Bits.{passes, passes_at}
use native.Mathlib.Decide.{dec_le}
use native.Mathlib.Nat.{pow-le-pow_right}
use chestnut.Pages.{page_size}
use chestnut.Slab.SizeClass.{
  obj_sizes, width, clz, fit_global_mem_cache, Route, pages, cache, alloc_route, slab_obj_size,
  free_route,
}

-- `width` is the number of digits of a number.
IsWidth : ℕ → ℕ → Type 0
IsWidth w x = (x < 2 ^ w) × ((w ≡ 0) ⊎ (2 ^ (w - 1) ≤ x))

width-IsWidth : (k x : ℕ) → x < 2 ^ k → IsWidth (width k x) x
unfolding width IsWidth
width-IsWidth zero x lt = (lt, inl refl)
width-IsWidth (suc k) x lt = elim (Bool-cases (leb (2 ^ k) x)) [
  | inl big ↦ rw big (lt, inr (ground arith))
  | inr small ↦ rw small (width-IsWidth k x (ground arith))
]

-- Which cache the width of `obj_size - 1` leads to.
pub IsSmallest : ℕ → ℕ → Type 0
IsSmallest size idx =
    (idx < 8) × (size ≤ get_or obj_sizes idx 0) × ((j : ℕ) → j < idx → get_or obj_sizes j 0 < size)

sizes_grow :
    passes (λ i. passes (λ j. leb (get_or obj_sizes j 0) (get_or obj_sizes i 0)) (i + 1)) 8 ≡ true
unfolding passes
sizes_grow = refl

sizes_mono : (i j : ℕ) → i < 8 → j ≤ i → get_or obj_sizes j 0 ≤ get_or obj_sizes i 0
sizes_mono i j small le =
    let row =
      passes_at (λ i. passes (λ j. leb (get_or obj_sizes j 0) (get_or obj_sizes i 0)) (i + 1)) 8 i
        small sizes_grow in
    let t =
      passes_at (λ j. leb (get_or obj_sizes j 0) (get_or obj_sizes i 0)) (i + 1) j (omega arith)
        row in
    ground arith

-- The size of a class, and of the one before it, by the width of the largest size less one.
sizes_table : passes (λ i. get_or obj_sizes i 0 == 2 ^ (i + 4)) 8 ≡ true
unfolding passes
sizes_table = refl

size_of_class : (i : ℕ) → i < 8 → get_or obj_sizes i 0 ≡ 2 ^ (i + 4)
size_of_class i lt =
    let t = passes_at (λ i. get_or obj_sizes i 0 == 2 ^ (i + 4)) 8 i lt sizes_table in ground arith

width-IsSmallest : (w size : ℕ) → 0 < size → w ≤ 11 → IsWidth w (size - 1) → IsSmallest size (w - 4)
unfolding IsWidth IsSmallest
width-IsSmallest w size pos le (lt, low) = elim (dec_le w 4) [
  | yes first ↦
      let e : w - 4 ≡ 0 = omega arith in
      let le16 : 2 ^ w ≤ 2 ^ 4 = pow-le-pow_right {n = 2} (omega arith) {i = w} {j = 4} first in
      rw e (omega arith, omega arith, λ j h. absurd (omega arith))
  | no later ↦
      let t = size_of_class (w - 4) (omega arith) in
      let t' = size_of_class (w - 4 - 1) (omega arith) in
      let e : w - 4 + 4 ≡ w = omega arith in
      let e' : w - 4 - 1 + 4 ≡ w - 1 = omega arith in
      let last : 2 ^ (w - 1) < size = elim low [
        | inl z ↦ absurd (omega arith)
        | inr h ↦ omega arith
      ] in
      (
        omega arith,
        rw (t, e) (omega arith),
        λ j h.
            let m = sizes_mono (w - 4 - 1) j (omega arith) (omega arith) in
            omega (arith, m, t' ∙ ap (λ (x : ℕ). 2 ^ x) e', last),
      )
]

width-le : (w x : ℕ) → IsWidth w x → x < 2 ^ 11 → w ≤ 11
unfolding IsWidth
width-le w x (lt, inl z) small = omega arith
width-le w x (lt, inr low) small = elim (dec_le w 11) [
  | yes h ↦ h
  | no more ↦ absurd (
      omega (
        arith,
        low,
        small,
        pow-le-pow_right {n = 2} (omega arith) {i = 11} {j = w - 1} (omega arith),
      ))
]

-- For an object of 2 to 2048 bytes, `FitGlobalMemCache` gives the cache with the smallest objects
-- that are large enough: the index is in range, its size is at least the one asked for, and every
-- cache before it has objects that are too small.
pub fit_global_mem_cache-IsSmallest :
    (clz_zero size : ℕ)
    → 1 < size
    → size ≤ 2048
    → (idx : ℕ) × (fit_global_mem_cache clz_zero size ≡ some idx) × IsSmallest size idx
unfolding fit_global_mem_cache clz
fit_global_mem_cache-IsSmallest clz_zero size pos small =
    let w = width-IsWidth 32 (size - 1) (omega arith) in
    let le = width-le (width 32 (size - 1)) (size - 1) w (omega arith) in
    let r = width-IsSmallest (width 32 (size - 1)) size (omega arith) le w in
    (width 32 (size - 1) - 4, ground (arith, le), r)

class-free_route :
    (clz_zero i : ℕ) → i < 8 → free_route clz_zero (get_or obj_sizes i 0) ≡ some (cache i)
unfolding free_route fit_global_mem_cache clz width
class-free_route clz_zero zero lt = refl
class-free_route clz_zero (suc zero) lt = refl
class-free_route clz_zero (suc (suc zero)) lt = refl
class-free_route clz_zero (suc (suc (suc zero))) lt = refl
class-free_route clz_zero (suc (suc (suc (suc zero)))) lt = refl
class-free_route clz_zero (suc (suc (suc (suc (suc zero))))) lt = refl
class-free_route clz_zero (suc (suc (suc (suc (suc (suc zero)))))) lt = refl
class-free_route clz_zero (suc (suc (suc (suc (suc (suc (suc zero))))))) lt = refl
class-free_route clz_zero (suc (suc (suc (suc (suc (suc (suc (suc i)))))))) lt =
    absurd (omega arith)

large_route : (clz_zero n : ℕ) → 0 < n → free_route clz_zero (n * page_size) ≡ some (pages n)
unfolding free_route
large_route clz_zero n pos =
    let big : ltb 2048 (n * page_size) ≡ true = ground arith in
    rw big (ap (λ (x : ℕ). some (pages x)) (omega arith))

ltb_le : (a b : ℕ) → b ≤ a → ltb a b ≡ false
ltb_le a b le = ground arith

-- `Alloc` of at least 2 bytes, and of no more than an `int` can round up to whole pages, finds its
-- way: the size that it notes in the page's struct fits in an `int` and covers what was asked for,
-- and from that size `Free` goes back to the same cache, or to the same number of pages.
pub free_route-alloc_route :
    (clz_zero size : ℕ)
    → 1 < size
    → size ≤ 2 ^ 31 - page_size
    → (r : Route) × (alloc_route clz_zero size ≡ some r)
      × (size ≤ slab_obj_size r)
      × (slab_obj_size r < 2 ^ 31)
      × (free_route clz_zero (slab_obj_size r) ≡ some r)
unfolding alloc_route slab_obj_size free_route IsSmallest
free_route-alloc_route clz_zero size pos fits = elim (dec_le size 2048) [
  | no large ↦ (
    pages ((size - 1) / page_size + 1),
    ground arith,
    omega arith,
    omega arith,
    large_route clz_zero ((size - 1) / page_size + 1) (omega arith),
  )
  | yes small ↦
      let (idx, fit, (in_range, covers, _)) =
        fit_global_mem_cache-IsSmallest clz_zero size pos small in
      (
        cache idx,
        rw (fit, ltb_le 2048 size small) refl,
        covers,
        omega (arith, sizes_mono 7 idx (omega arith) (omega arith)),
        class-free_route clz_zero idx in_range,
      )
]
