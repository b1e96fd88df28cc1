-- ===== src/Slab/Cache.antt =====
-- `MemCache<Slab, ObjSize>`: slabs on three queues, over any slab class.
pub mod Detached
pub mod Rejoin
pub mod Take
pub mod Laws
pub mod Addresses
use chestnut.Base.{
  ℕ, ◌+◌, ◌-◌, ◌*◌, ◌/◌, ◌%◌, ◌^◌, Bool, true, false, not, ◌&&◌, ◌||◌, Option, none, some, List, [],
  ◌∷◌, leb, ◌==◌, if◌then◌else◌, store, has,
}
use chestnut.Pages.{page_size, page_num, page_base}
use chestnut.Slab.{SlabClass}

-- The slabs by their address, with `data_page` (the page's address) and, by page number, the
-- `slab_ptr` of the page's struct; the three queues, as the nodes behind each head; and `stat`.
-- `released` records the calls of `Slab::FreeSlab`, the newest first.
pub record MemCache (Slab : Type 0) : Type 0 where
  pub slab : ℕ → Slab
  pub data_page : ℕ → ℕ
  pub slab_ptr : ℕ → ℕ
  pub full : List ℕ
  pub half : List ℕ
  pub empty : List ℕ
  pub allocated : ℕ
  pub slab_pg : ℕ
  pub max_pg : ℕ
  pub released : List ℕ

-- A queue without a node.
unfoldable pub without : ℕ → List ℕ → List ℕ
without a [] = []
without a (x ∷ xs) = let rest = without a xs in if a == x then rest else x ∷ rest

module _ {Slab : Type 0} where
  -- `list_node()->Delete()`: the node leaves the queue that it is on.
  unfoldable pub unlink : ℕ → MemCache Slab → MemCache Slab
  unlink a m = record m {
    full = without a m.full;
    half = without a m.half;
    empty = without a m.empty;
  }

  -- `MemCacheBase::MemCacheBase`; `slab_pg` and `max_pg` stay what they are.
  unfoldable pub construct : MemCache Slab → MemCache Slab
  construct m = record m { full = []; half = []; empty = []; allocated = 0 }

  unfoldable pub set_max_page : ℕ → MemCache Slab → MemCache Slab
  set_max_page max_page m = record m { max_pg = max_page }

  -- `BaseSlab::AllocSlab`, with the two addresses that it gets from the other allocators.
  unfoldable pub alloc_slab : ℕ → ℕ → MemCache Slab → MemCache Slab
  alloc_slab a pg m = record m {
    data_page = store m.data_page a pg;
    slab_ptr = store m.slab_ptr (page_num pg) a;
  }

  unfoldable pub reclaim_empty_slab : ℕ → MemCache Slab → Bool × MemCache Slab
  reclaim_empty_slab a m =
      if leb m.slab_pg m.max_pg
      then (false, m)
      else (true, record m { slab_pg = m.slab_pg - 1; released = a ∷ m.released })

module _ (c : SlabClass) where
  -- `slab->Init(PAGESIZE / ObjSize)`, and the page is counted.
  unfoldable pub init_slab : ℕ → MemCache c.State → MemCache c.State
  init_slab a m = record m {
    slab = store m.slab a (c.init (m.slab a));
    slab_pg = (m.slab_pg + 1) % 2 ^ 64;
  }

  unfoldable pub adjust_slab : ℕ → MemCache c.State → MemCache c.State
  adjust_slab a m =
      let (done, m') = reclaim_empty_slab a m in
      if c.is_full (m.slab a)
      then record m { full = a ∷ m.full }
      else if c.is_empty (m.slab a)
      then (if done then m' else record m' { empty = a ∷ m'.empty })
      else record m { half = a ∷ m.half }

  -- The slab that `Allocate` takes from: a half full one, else an empty one, else a new one.
  unfoldable pub pick_slab : ℕ → ℕ → List ℕ → List ℕ → MemCache c.State → ℕ × MemCache c.State
  pick_slab a pg (x ∷ half) empty m = (x, unlink x m)
  pick_slab a pg [] (x ∷ empty) m = (x, unlink x m)
  pick_slab a pg [] [] m = (a, init_slab a (alloc_slab a pg m))

  -- `Slab::Alloc` on the slab at an address, and on the count.
  unfoldable pub take_object : ℕ → ℕ → MemCache c.State → Option (ℕ × MemCache c.State)
  take_object obj_size a m = elim (c.alloc (m.slab a)) [
    | none ↦ none
    | some (idx, s) ↦ some (
      m.data_page a + idx * obj_size,
      adjust_slab a (record m { slab = store m.slab a s; allocated = (m.allocated + 1) % 2 ^ 64 }),
    )
  ]

  -- `MemCache::Allocate`; `a` and `pg` are what `Slab::AllocSlab` would get, should it be called.
  unfoldable pub allocate : ℕ → ℕ → ℕ → MemCache c.State → Option (ℕ × MemCache c.State)
  allocate obj_size a pg m =
      let (x, m') = pick_slab a pg m.half m.empty m in take_object obj_size x m'

  -- The slab leaves its queue, gets object `idx` back, and goes where it then belongs.
  unfoldable pub give_object : ℕ → ℕ → MemCache c.State → Option (MemCache c.State)
  give_object idx a m =
      let m' = unlink a m in
      elim (c.free idx (m'.slab a)) [
        | none ↦ none
        | some s ↦ some (
            adjust_slab a (record m' {
              slab = store m'.slab a s;
              allocated = (m'.allocated + (2 ^ 64 - 1)) % 2 ^ 64;
            }))
      ]

  -- `MemCache::Free`, of a physical address.
  unfoldable pub free : ℕ → ℕ → MemCache c.State → Option (MemCache c.State)
  free obj_size addr m =
      give_object ((addr - page_base addr) / obj_size) (m.slab_ptr (page_num addr)) m
