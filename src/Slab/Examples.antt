-- ===== src/Slab/Examples.antt =====
-- Runs of the slab code, and the theorems about it at concrete slabs and caches.
use chestnut.Base.{
  ◌↔◌, ◌≢◌, ◌⊎◌, inr, ℕ, ◌+◌, ◌<◌, ◌≤◌, ◌^◌, ◌≡◌, refl, [], some, true, false, arith, replicate,
}
use chestnut.Pages.{page_num}
use chestnut.Slab.{IsSlab}
use chestnut.Slab.FreeStack.{FreeStack}
use chestnut.Slab.FreeStack.Laws.{free_stack_class, HasStack, free_stack-IsSlab}
use chestnut.Slab.Cache.{MemCache, construct}
use chestnut.Slab.Cache.Addresses.{HandedOut}
use chestnut.Slab.Heap.{Heap, init_caches, heap_allocate, heap_free}
use chestnut.Slab.Heap.Release.{IsHeap, IsMetaPage, SlabOut, heap_free-TakesBack}
use chestnut.Slab.Heap.Laws.{heap_allocate-HandsOut}
use chestnut.Slab.Heap.Start.{init_caches-IsHeap}
use chestnut.Slab.Globals.{
  EachIsServed, global_mem_caches, defined_mem_caches, global_mem_caches-IsServed,
}
use chestnut.Slab.Cache.Detached.{queued}
use chestnut.Slab.SizeClass.{fit_global_mem_cache, Route, alloc_route, slab_obj_size, free_route}
use chestnut.Slab.SizeClass.Laws.{
  IsSmallest, fit_global_mem_cache-IsSmallest, free_route-alloc_route,
}

stack_kept : IsSlab (free_stack_class 32) (λ i. i < 32) HasStack
stack_kept = free_stack-IsSlab 32 (omega arith) (omega arith)

-- A cache for objects of 128 bytes, and the cache of its slabs, before `InitSlab`.
abbrev raw_heap : Heap FreeStack
raw_heap = record {
  meta = record {
    slab =
        λ a. record { mem = a; links = record { prev = λ x. 0; next = λ x. 0 }; nr_free_slab = 0 };
    data_page = λ a. a;
    slab_ptr = λ n. 0;
    full = [];
    half = [];
    empty = [];
    allocated = 0;
    slab_pg = 0;
    max_pg = 0;
    released = [];
  };
  cache = record {
    slab = λ a. record { nr_free = 0; nr_total = 0; free_stack = replicate 38 0 };
    data_page = λ a. 0;
    slab_ptr = λ n. 0;
    full = [];
    half = [];
    empty = [];
    allocated = 0;
    slab_pg = 0;
    max_pg = 0;
    released = [];
  };
}

abbrev started : Heap FreeStack
started = init_caches raw_heap

global_mem_caches-IsServed_example : EachIsServed 5 (defined_mem_caches global_mem_caches)
global_mem_caches-IsServed_example = global_mem_caches-IsServed 5

no_queue : {Slab : Type 0} (m : MemCache Slab) (b : ℕ) → queued (construct m) b ≡ false
unfolding queued construct
no_queue m b = refl

started_page : IsMetaPage started.meta 12288
unfolding init_caches
started_page = record {
  apart = no_queue raw_heap.meta 12288;
  raw = tt;
  aligned = refl;
  unshared = λ b h. cc (no_queue raw_heap.meta b, h);
}

started_pages :
    (b : ℕ) → queued started.cache b ≡ true → page_num 8192 ≢ page_num (started.cache.data_page b)
unfolding init_caches
started_pages b h = cc (no_queue raw_heap.cache b, h)

started_arrays : (b : ℕ) → HasStack (started.cache.slab b)
unfolding init_caches construct
started_arrays b = refl

heap_allocate-HandsOut_example :
    (addr : ℕ) × (h' : Heap FreeStack) × ((heap_allocate
          (free_stack_class 32)
          128
          12288
          8192
          started.cache.half
          started.cache.empty
          started
        ≡ some (addr, h'))
      × IsHeap (free_stack_class 32) (λ i. i < 32) HasStack stack_kept h'
      × ¬ HandedOut (free_stack_class 32) (λ i. i < 32) HasStack stack_kept 128 started.cache addr
      × ((y : ℕ)
          → HandedOut (free_stack_class 32) (λ i. i < 32) HasStack stack_kept 128 started.cache y
          → (y + 128 ≤ addr) ⊎ (addr + 128 ≤ y))
      × ((y : ℕ)
          → HandedOut (free_stack_class 32) (λ i. i < 32) HasStack stack_kept 128 h'.cache y ↔ (
              HandedOut (free_stack_class 32) (λ i. i < 32) HasStack stack_kept 128 started.cache y
              ⊎ (y ≡ addr))))
heap_allocate-HandsOut_example =
    heap_allocate-HandsOut (free_stack_class 32) (λ i. i < 32) HasStack stack_kept 128 (omega arith)
      (λ j lt. omega arith) 0 12288 8192 started (omega arith)
      (init_caches-IsHeap (free_stack_class 32) (λ i. i < 32) HasStack stack_kept 128 raw_heap).0
      started_page refl started_pages (λ b out. started_arrays b)

-- The caches after the first object.
abbrev first_object :
    (addr : ℕ) × (h' : Heap FreeStack) × (IsHeap
        (free_stack_class 32)
        (λ i. i < 32)
        HasStack
        stack_kept
        h'
      × HandedOut (free_stack_class 32) (λ i. i < 32) HasStack stack_kept 128 h'.cache addr)
first_object =
    let (addr, h', (e, v, new, apart, outs)) =
      heap_allocate-HandsOut (free_stack_class 32) (λ i. i < 32) HasStack stack_kept 128
        (omega arith) (λ j lt. omega arith) 0 12288 8192 started (omega arith)
        (init_caches-IsHeap (free_stack_class 32) (λ i. i < 32) HasStack stack_kept 128 raw_heap).0
        started_page refl started_pages (λ b out. started_arrays b) in
    (addr, h', (v, (outs addr).1 (inr refl)))

heap_free-TakesBack_example :
    (h' : Heap FreeStack) × ((heap_free (free_stack_class 32) 128 first_object.0 first_object.1
        ≡ some h')
      × IsHeap (free_stack_class 32) (λ i. i < 32) HasStack stack_kept h'
      × ((y : ℕ)
          → HandedOut (free_stack_class 32) (λ i. i < 32) HasStack stack_kept 128 h'.cache y ↔ (
              HandedOut
                (free_stack_class 32)
                (λ i. i < 32)
                HasStack
                stack_kept
                128
                first_object.1.cache
                y
              × (y ≢ first_object.0)))
      × ((b : ℕ)
          → SlabOut h'.meta b ↔ (
              SlabOut first_object.1.meta b
              × (queued first_object.1.cache b ≡ true → queued h'.cache b ≡ true))))
heap_free-TakesBack_example =
    heap_free-TakesBack (free_stack_class 32) (λ i. i < 32) HasStack stack_kept 128 (omega arith)
      (λ j lt. omega arith) first_object.1 first_object.0 first_object.2.0 first_object.2.1

fit_global_mem_cache-IsSmallest_example :
    (idx : ℕ) × (fit_global_mem_cache 0 100 ≡ some idx) × IsSmallest 100 idx
fit_global_mem_cache-IsSmallest_example =
    fit_global_mem_cache-IsSmallest 0 100 (omega arith) (omega arith)

free_route-alloc_route_example :
    (r : Route) × (alloc_route 0 5000 ≡ some r)
    × (5000 ≤ slab_obj_size r)
    × (slab_obj_size r < 2 ^ 31)
    × (free_route 0 (slab_obj_size r) ≡ some r)
free_route-alloc_route_example = free_route-alloc_route 0 5000 (omega arith) (omega arith)
