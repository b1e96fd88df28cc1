-- ===== src/Slab/Heap.antt =====
-- A cache with the cache that its slabs come from: `BaseSlab::AllocSlab` allocates the slab in
-- `meta_slab_cache`, and `BaseSlab::FreeSlab` gives it back there.
pub mod Settled
pub mod Release
pub mod Laws
pub mod Start
use chestnut.Base.{ℕ, Option, none, some, List, [], ◌∷◌, ◌==◌, if◌then◌else◌, length}
use chestnut.Slab.{SlabClass}
use chestnut.Slab.Cache.{MemCache, construct, allocate, free}
use chestnut.Slab.Meta.{MetaSlab}
use chestnut.Slab.Meta.Laws.{meta_slab_class}

pub record Heap (Slab : Type 0) : Type 0 where
  pub meta : MemCache MetaSlab
  pub cache : MemCache Slab

-- The call of `BaseSlab::FreeSlab`, when the cache has released one more slab than `before`.
unfoldable pub free_released : List ℕ → List ℕ → MemCache MetaSlab → Option (MemCache MetaSlab)
free_released before [] meta = some meta
free_released before (x ∷ released) meta =
    if length released == length before then free meta_slab_class 64 x meta else some meta

module _ {Slab : Type 0} where
  -- The part of `InitSlab` that constructs the two caches.
  unfoldable pub init_caches : Heap Slab → Heap Slab
  init_caches h = record { meta = construct h.meta; cache = construct h.cache }

  -- A cache that has changed, and its slab given back if it was released.
  unfoldable pub settle_heap : List ℕ → MemCache MetaSlab → MemCache Slab → Option (Heap Slab)
  settle_heap before meta cache = elim (free_released before cache.released meta) [
    | none ↦ none
    | some meta' ↦ some (record { meta = meta'; cache = cache })
  ]

  -- What `Allocate` gives, once its cache has given an object.
  unfoldable pub settle_object :
      List ℕ → MemCache MetaSlab → Option (ℕ × MemCache Slab) → Option (ℕ × Heap Slab)
  settle_object before meta none = none
  settle_object before meta (some (addr, cache)) = elim (settle_heap before meta cache) [
    | none ↦ none
    | some h ↦ some (addr, h)
  ]

module _ (c : SlabClass) where
  -- `Allocate` with a new slab from `meta_slab_cache`; a `MetaSlab` is at the start of its page.
  unfoldable pub allocate_new : ℕ → ℕ → ℕ → Heap c.State → Option (ℕ × Heap c.State)
  allocate_new obj_size pg_meta pg h = elim (allocate meta_slab_class 64 pg_meta pg_meta h.meta) [
    | none ↦ none
    | some (a, meta) ↦ settle_object h.cache.released meta (allocate c obj_size a pg h.cache)
  ]

  -- `MemCache::Allocate`: no new slab is asked for while a slab is on the queue `half` or `empty`.
  -- `pg_meta` and `pg` are the pages that `MemPages` would give.
  unfoldable pub heap_allocate :
      ℕ → ℕ → ℕ → List ℕ → List ℕ → Heap c.State → Option (ℕ × Heap c.State)
  heap_allocate obj_size pg_meta pg (x ∷ half) empty h =
      settle_object h.cache.released h.meta (allocate c obj_size 0 0 h.cache)
  heap_allocate obj_size pg_meta pg [] (x ∷ empty) h =
      settle_object h.cache.released h.meta (allocate c obj_size 0 0 h.cache)
  heap_allocate obj_size pg_meta pg [] [] h = allocate_new obj_size pg_meta pg h

  unfoldable pub heap_free : ℕ → ℕ → Heap c.State → Option (Heap c.State)
  heap_free obj_size addr h = elim (free c obj_size addr h.cache) [
    | none ↦ none
    | some cache ↦ settle_heap h.cache.released h.meta cache
  ]
