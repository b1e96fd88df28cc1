-- ===== src/Slab/Heap/Start.antt =====
-- The caches behind `InitSlab`.
use chestnut.Base.{ℕ, ◌≡◌, refl, false, arith}
use chestnut.Slab.{SlabClass, IsSlab}
use chestnut.Slab.Cache.{MemCache, construct}
use chestnut.Slab.Cache.Detached.{queued, IsValid}
use chestnut.Slab.Cache.Laws.{queued_of_used}
use chestnut.Slab.Cache.Addresses.{HandedOut}
use chestnut.Slab.Meta.Listed.{IsBlock}
use chestnut.Slab.Meta.Laws.{meta_slab_class, meta_slab-IsSlab}
use chestnut.Slab.Heap.{Heap, init_caches}
use chestnut.Slab.Heap.Release.{IsHeap}

queued-construct : {Slab : Type 0} (m : MemCache Slab) (b : ℕ) → queued (construct m) b ≡ false
unfolding queued construct
queued-construct m b = refl

module _ (c : SlabClass) (IsSlot : ℕ → Type 0) (Raw : c.State → Type 0)
    (kept : IsSlab c IsSlot Raw) where
  construct-IsValid : (m : MemCache c.State) → IsValid c IsSlot Raw kept (construct m)
  unfolding construct
  construct-IsValid m = record {
    placed = λ a h. cc (queued-construct m a, h);
    on_full = λ a h. absurd (ground arith);
    on_half = λ a h. absurd (ground arith);
    on_empty = λ a h. absurd (ground arith);
  }

module _ (c : SlabClass) (IsSlot : ℕ → Type 0) (Raw : c.State → Type 0)
    (kept : IsSlab c IsSlot Raw) where
  -- Behind `InitSlab` the caches are in order, and nothing is handed out.
  pub init_caches-IsHeap :
      (obj_size : ℕ) (h : Heap c.State)
      → IsHeap c IsSlot Raw kept (init_caches h)
        × ((y : ℕ) → ¬ HandedOut c IsSlot Raw kept obj_size (init_caches h).cache y)
  unfolding init_caches
  init_caches-IsHeap obj_size h = (
    record {
      meta_valid =
          construct-IsValid meta_slab_class IsBlock (λ s. Unit {0}) meta_slab-IsSlab h.meta;
      cache_valid = construct-IsValid c IsSlot Raw kept h.cache;
      held = λ b q. cc (queued-construct h.cache b, q);
    },
    λ y (a, i, held). cc (
      queued-construct h.cache a,
      queued_of_used c IsSlot Raw kept (construct h.cache) a i held.in_use,
    ),
  )
