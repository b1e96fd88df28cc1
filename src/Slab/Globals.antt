-- ===== src/Slab/Globals.antt =====
-- `kGlobalMemCache`: the caches of kern/mm/uslab.cc, with the slab class and the object size of each.
use chestnut.Base.{
  ℕ, ◌+◌, ◌*◌, ◌/◌, ◌≤◌, ◌<◌, List, [], ◌∷◌, length, ◌≡◌, ◌==◌, if◌then◌else◌, arith,
}
use chestnut.Pages.{page_size}
use chestnut.Slab.{SlabClass, IsSlab}
use chestnut.Slab.FreeStack.Laws.{free_stack_class, HasStack, free_stack-IsSlab}
use chestnut.Slab.Bitmap.Laws.{bitmap_class}
use chestnut.Slab.Bitmap.OneRow.{one_row-IsSlab}

-- `BitmapSlab<rows>` or `FreeListSlab`.
pub data SlabKind : Type 0 where
  bitmap_slab : ℕ → SlabKind
  free_list_slab : SlabKind

-- `MemCache<kind, obj_size>`, for each of the globals in the order of `kGlobalMemCache`.
abbrev pub global_mem_caches : List (SlabKind × ℕ)
global_mem_caches =
    (bitmap_slab 4, 16)
    ∷ (bitmap_slab 2, 32)
    ∷ (bitmap_slab 1, 64)
    ∷ (free_list_slab, 128)
    ∷ (free_list_slab, 256)
    ∷ (free_list_slab, 512)
    ∷ (free_list_slab, 1024)
    ∷ (free_list_slab, 2048)
    ∷ []

-- The operations of a kind, initialised with `PAGESIZE / ObjSize`.
abbrev pub slab_class : ℕ → SlabKind → ℕ → SlabClass
slab_class ctz_zero (bitmap_slab rows) obj_size = bitmap_class ctz_zero
slab_class ctz_zero free_list_slab obj_size = free_stack_class (page_size / obj_size)

-- Memory with the arrays of the kind.
abbrev pub HasArrays :
    (ctz_zero : ℕ) (kind : SlabKind) (obj_size : ℕ)
    → (slab_class ctz_zero kind obj_size).State
    → Type 0
HasArrays ctz_zero (bitmap_slab rows) obj_size bitmap = length bitmap ≡ rows
HasArrays ctz_zero free_list_slab obj_size s = HasStack s

-- How many objects a slab hands out.
abbrev pub slots : SlabKind → ℕ → ℕ
slots (bitmap_slab rows) obj_size = 32 * rows
slots free_list_slab obj_size = page_size / obj_size

-- What the cache asks of its slab class and its object size.
pub record IsServed (ctz_zero : ℕ) (kind : SlabKind) (obj_size : ℕ) : Type 1 where
  pub pos : 0 < obj_size
  pub some_slot : 0 < slots kind obj_size
  pub kept :
      IsSlab
        (slab_class ctz_zero kind obj_size)
        (λ i. i < slots kind obj_size)
        (HasArrays ctz_zero kind obj_size)
  pub fits : (i : ℕ) → i < slots kind obj_size → i * obj_size + obj_size ≤ page_size

abbrev pub EachIsServed : ℕ → List (SlabKind × ℕ) → Type 1
EachIsServed ctz_zero [] = Unit {1}
EachIsServed ctz_zero ((kind, obj_size) ∷ caches) =
    IsServed ctz_zero kind obj_size × EachIsServed ctz_zero caches

-- The caches without those for 16 and 32 bytes. The slabs of these two have rows that become 0 while others
-- are not, so that `Alloc` reaches `__builtin_ctzl` of 0, which is undefined.
abbrev pub defined_mem_caches : List (SlabKind × ℕ) → List (SlabKind × ℕ)
defined_mem_caches [] = []
defined_mem_caches ((bitmap_slab rows, obj_size) ∷ caches) =
    if rows == 1
    then (bitmap_slab rows, obj_size) ∷ defined_mem_caches caches
    else defined_mem_caches caches
defined_mem_caches ((free_list_slab, obj_size) ∷ caches) =
    (free_list_slab, obj_size) ∷ defined_mem_caches caches

-- Each of the global caches for objects of 64 bytes or more, whose slabs have one row of bits or a
-- stack, has a slab class that keeps the interface of a slab, and objects that fit in the page of
-- their slab, whatever `__builtin_ctzl` gives at 0.
pub global_mem_caches-IsServed :
    (ctz_zero : ℕ) → EachIsServed ctz_zero (defined_mem_caches global_mem_caches)
global_mem_caches-IsServed ctz_zero = (
  record {
    pos = omega arith;
    some_slot = omega arith;
    kept = one_row-IsSlab ctz_zero;
    fits = λ i lt. omega arith;
  },
  (
    stack 128 (omega arith) (omega arith) (omega arith) (λ i lt. omega arith),
    (
      stack 256 (omega arith) (omega arith) (omega arith) (λ i lt. omega arith),
      (
        stack 512 (omega arith) (omega arith) (omega arith) (λ i lt. omega arith),
        (
          stack 1024 (omega arith) (omega arith) (omega arith) (λ i lt. omega arith),
          (stack 2048 (omega arith) (omega arith) (omega arith) (λ i lt. omega arith), (tt)),
        ),
      ),
    ),
  ),
)
  where
    stack :
        (obj_size : ℕ)
        → 0 < obj_size
        → 0 < page_size / obj_size
        → page_size / obj_size ≤ 38
        → ((i : ℕ) → i < page_size / obj_size → i * obj_size + obj_size ≤ page_size)
        → IsServed ctz_zero free_list_slab obj_size
    stack obj_size pos some few fits = record {
      pos = pos;
      some_slot = some;
      kept = free_stack-IsSlab (page_size / obj_size) some few;
      fits = fits;
    }
