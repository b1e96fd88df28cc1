-- ===== src/Slab/SizeClass.antt =====
-- `FitGlobalMemCache`, and the ways of `Alloc` and `Free` (the end of kern/mm/uslab.cc).
pub mod Laws
use chestnut.Base.{
  ℕ, zero, suc, ◌+◌, ◌-◌, ◌*◌, ◌/◌, ◌^◌, Option, none, some, List, [], ◌∷◌, ltb, leb, ◌==◌,
  if◌then◌else◌, get_or,
}
use chestnut.Pages.{page_size}

-- The sizes of the objects of `kGlobalMemCache`, in its order.
abbrev pub obj_sizes : List ℕ
obj_sizes = 16 ∷ 32 ∷ 64 ∷ 128 ∷ 256 ∷ 512 ∷ 1024 ∷ 2048 ∷ []

-- How many of the lowest `k` bits of a number it needs.
unfoldable pub width : ℕ → ℕ → ℕ
width zero x = 0
width (suc k) x = let rest = width k x in if leb (2 ^ k) x then suc k else rest

-- `__builtin_clz`. At 0 its result is undefined: it is the parameter `clz_zero`.
unfoldable pub clz : ℕ → ℕ → ℕ
clz clz_zero x = if x == 0 then clz_zero else 32 - width 32 x

-- The index in `kGlobalMemCache`. A difference below 0 is 0 on ℕ, and the code makes it 0. A failed
-- `kassert` is `none`.
unfoldable pub fit_global_mem_cache : ℕ → ℕ → Option ℕ
fit_global_mem_cache clz_zero obj_size =
    let idx = 32 - clz clz_zero (obj_size - 1) - 4 in if ltb idx 8 then some idx else none

-- Where an object comes from: whole pages, by their number, or the cache of an index.
pub data Route : Type 0 where
  pages : ℕ → Route
  cache : ℕ → Route

-- `Alloc`, up to the call of the allocator.
unfoldable pub alloc_route : ℕ → ℕ → Option Route
alloc_route clz_zero obj_size =
    if ltb 2048 obj_size
    then some (pages ((obj_size - 1) / page_size + 1))
    else elim (fit_global_mem_cache clz_zero obj_size) [ none ↦ none | some idx ↦ some (cache idx) ]

-- The `slab_obj_size` that `Alloc` or `AllocSlab` leaves in the struct of the page.
unfoldable pub slab_obj_size : Route → ℕ
slab_obj_size (pages n) = n * page_size
slab_obj_size (cache idx) = get_or obj_sizes idx 0

-- `Free`, from the page's `slab_obj_size` on.
unfoldable pub free_route : ℕ → ℕ → Option Route
free_route clz_zero size =
    if ltb 2048 size
    then some (pages (size / page_size))
    else elim (fit_global_mem_cache clz_zero size) [ none ↦ none | some idx ↦ some (cache idx) ]
