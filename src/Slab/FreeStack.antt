-- ===== src/Slab/FreeStack.antt =====
-- `FreeListSlab`: a stack of the indices of the free objects.
pub mod Count
pub mod Laws
use chestnut.Base.{
  ℕ, zero, suc, ◌+◌, ◌-◌, ◌%◌, ◌^◌, Bool, Option, none, some, List, ltb, ◌==◌, if◌then◌else◌,
  length, get_or, set,
}

-- `u8 nr_free, nr_total, free_stack[38]`.
pub record FreeStack : Type 0 where
  pub nr_free : ℕ
  pub nr_total : ℕ
  pub free_stack : List ℕ

abbrev pub stack_size : ℕ
stack_size = 38

abbrev pub u8 : ℕ → ℕ
u8 n = n % 2 ^ 8

-- `free_stack[i] = v`, in range or not.
unfoldable pub write : List ℕ → ℕ → ℕ → Option (List ℕ)
write xs i v = if ltb i (length xs) then some (set xs i (u8 v)) else none

unfoldable pub read : List ℕ → ℕ → Option ℕ
read xs i = if ltb i (length xs) then some (get_or xs i 0) else none

-- The loop of `Init`, with `left` rounds to go. `Init` never writes out of range, as its callers
-- pass at most 32.
unfoldable pub fill : ℕ → ℕ → List ℕ → List ℕ
fill zero i xs = xs
fill (suc left) i xs = fill left (i + 1) (set xs i (u8 i))

unfoldable pub init : ℕ → FreeStack → FreeStack
init total s = record s {
  nr_free = u8 total;
  nr_total = u8 total;
  free_stack = fill total 0 s.free_stack;
}

unfoldable pub alloc : FreeStack → Option (ℕ × FreeStack)
alloc s =
    let top = u8 (s.nr_free + 255) in
    elim (read s.free_stack top) [ none ↦ none | some idx ↦ some (idx, record s { nr_free = top }) ]

unfoldable pub free : ℕ → FreeStack → Option FreeStack
free obj_idx s = elim (write s.free_stack s.nr_free obj_idx) [
  | none ↦ none
  | some xs ↦ some (record s { free_stack = xs; nr_free = u8 (s.nr_free + 1) })
]

unfoldable pub is_empty : FreeStack → Bool
is_empty s = s.nr_free == s.nr_total

unfoldable pub is_full : FreeStack → Bool
is_full s = s.nr_free == 0
