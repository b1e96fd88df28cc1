-- ===== src/Slab.antt =====
-- The slab allocator of kern/mm/uslab.cc. This file has the interface that the template
-- `MemCache<Slab, ObjSize>` asks of its `Slab`: the operations, and what they promise.
pub mod FreeStack
pub mod Bitmap
pub mod Meta
pub mod Cache
pub mod Heap
pub mod Globals
pub mod SizeClass
mod Examples
use chestnut.Base.{ℕ, ◌<◌, ◌≡◌, ◌↔◌, Bool, true, false, not, ◌&&◌, ◌||◌, Option, some, ◌==◌}

-- The operations of a slab class. An operation gives `none` where the code reads or writes outside
-- an array, or where C++ leaves the result open.
pub record SlabClass : Type 1 where
  pub State : Type 0
  pub init : State → State
  pub alloc : State → Option (ℕ × State)
  pub free : ℕ → State → Option State
  pub is_empty : State → Bool
  pub is_full : State → Bool

-- The promise: a set of slots (the indices in `IsSlot`), of which `alloc` takes one that is free and `free` gives one back.
-- `Raw` is memory of the right size, before `Init`.
pub record IsSlab (c : SlabClass) (IsSlot : ℕ → Type 0) (Raw : c.State → Type 0) : Type 1 where
  pub Valid : c.State → Type 0
  pub slot_free : c.State → ℕ → Bool
  pub init_lem :
      (s : c.State)
      → Raw s
      → Valid (c.init s) × ((i : ℕ) → IsSlot i → slot_free (c.init s) i ≡ true)
  pub alloc_lem :
      (s : c.State)
      → Valid s
      → c.is_full s ≡ false
      → (i : ℕ) × (s' : c.State) × ((c.alloc s ≡ some (i, s'))
          × Valid s'
          × (IsSlot i)
          × (slot_free s i ≡ true)
          × ((j : ℕ) → IsSlot j → slot_free s' j ≡ (slot_free s j && not (i == j))))
  pub free_lem :
      (i : ℕ) (s : c.State)
      → Valid s
      → IsSlot i
      → slot_free s i ≡ false
      → (s' : c.State) × (c.free i s ≡ some s')
        × Valid s'
        × ((j : ℕ) → IsSlot j → slot_free s' j ≡ ((i == j) || slot_free s j))
  pub is_full_lem :
      (s : c.State) → Valid s → (c.is_full s ≡ true) ↔ ((i : ℕ) → IsSlot i → slot_free s i ≡ false)
  pub is_empty_lem :
      (s : c.State) → Valid s → (c.is_empty s ≡ true) ↔ ((i : ℕ) → IsSlot i → slot_free s i ≡ true)
