-- ===== src/Slab/Heap/Laws.antt =====
-- `Allocate`, with the slabs that `meta_slab_cache` gives.
use chestnut.Base.{
  Option, ℕ, ◌+◌, ◌*◌, ◌%◌, ◌≤◌, ◌<◌, ◌≡◌, ◌≢◌, refl, sym, ap, subst, ◌∙◌, ◌↔◌, ◌⊎◌, inl, inr,
  Bool-cases, true, false, some, List, [], ◌∷◌, arith,
}
use chestnut.Pages.{page_size, page_num}
use chestnut.Slab.{SlabClass, IsSlab}
use chestnut.Slab.Cache.{MemCache, pick_slab, take_object, allocate}
use chestnut.Slab.Cache.Detached.{queued, IsValid}
use chestnut.Slab.Cache.Addresses.{HandedOut, allocate-HandsOut}
use chestnut.Slab.Meta.{MetaSlab}
use chestnut.Slab.Meta.Listed.{IsBlock}
use chestnut.Slab.Meta.Laws.{meta_slab_class, meta_slab-IsSlab}
use chestnut.Slab.Heap.{Heap, settle_heap, settle_object, allocate_new, heap_allocate}
use chestnut.Slab.Heap.Settled.{take-IsSettled, pick-IsChosen}
use chestnut.Slab.Heap.Release.{
  AnyMeta, IsMetaValid, SlabOut, IsMetaPage, block_fits, IsHeap, settle_heap-IsHeap,
}

module _ (c : SlabClass) (IsSlot : ℕ → Type 0) (Raw : c.State → Type 0)
    (kept : IsSlab c IsSlot Raw) where
  module _ (obj_size : ℕ) (pos : 0 < obj_size)
      (fits : (j : ℕ) → IsSlot j → j * obj_size + obj_size ≤ page_size) where
    -- What `allocate` does with lists for the queues.
    taken : ℕ → ℕ → List ℕ → List ℕ → MemCache c.State → Option (ℕ × MemCache c.State)
    taken a pg half empty m =
        take_object c obj_size (pick_slab c a pg half empty m).0 (pick_slab c a pg half empty m).1

    -- The object that the cache gives, put together with the cache of the slabs.
    object-IsHeap :
        (a pg addr : ℕ) (meta : MemCache MetaSlab) (m m' : MemCache c.State) (half empty : List ℕ)
        → queued m a ≡ false
        → taken a pg half empty m ≡ some (addr, m')
        → IsValid c IsSlot Raw kept m'
        → IsMetaValid meta
        → SlabOut meta (pick_slab c a pg half empty m).0
        → ((b : ℕ) → queued m b ≡ true → SlabOut meta b)
        → (h' : Heap c.State) × ((settle_object m.released meta (some (addr, m')) ≡ some (addr, h'))
            × (h'.cache ≡ m')
            × IsHeap c IsSlot Raw kept h')
    unfolding taken settle_object
    object-IsHeap a pg addr meta m m' half empty out e v' w given held =
        let p = pick-IsChosen c a pg half empty m out in
        let (x, m0) = pick_slab c a pg half empty m in
        let s = take-IsSettled c obj_size x addr m0 m' p.apart e in
        let (h', (f, same, v, slabs)) =
          settle_heap-IsHeap c IsSlot Raw kept x meta m0 m' s v' w given
            (λ b h. held b (p.fewer b h)) in
        let before : settle_heap m.released meta m' ≡ some h' =
          subst (λ r. settle_heap r meta m' ≡ some h') p.released_lem f in
        (h', (rw (before, settle_object) refl, same, v))

    allocate-taken :
        (a pg : ℕ) (m : MemCache c.State) → allocate c obj_size a pg m ≡ taken a pg m.half m.empty m
    unfolding allocate taken
    allocate-taken a pg m = refl

    -- While a slab is on a queue, the memory for a new one does not matter.
    taken-cons :
        (a pg x : ℕ) (half empty : List ℕ) (m : MemCache c.State)
        → (taken a pg (x ∷ half) empty m ≡ taken 0 0 (x ∷ half) empty m)
          × (taken a pg [] (x ∷ empty) m ≡ taken 0 0 [] (x ∷ empty) m)
    unfolding taken pick_slab
    taken-cons a pg x half empty m = (refl, refl)

    -- An object from a slab that is on a queue.
    from_queue :
        (a pg addr : ℕ) (half empty : List ℕ) (h : Heap c.State) (m' : MemCache c.State)
        → IsHeap c IsSlot Raw kept h
        → queued h.cache a ≡ false
        → IsValid c IsSlot Raw kept m'
        → h.cache.half ≡ half
        → h.cache.empty ≡ empty
        → taken a pg half empty h.cache ≡ taken 0 0 half empty h.cache
        → queued h.cache (pick_slab c a pg half empty h.cache).0 ≡ true
        → allocate c obj_size a pg h.cache ≡ some (addr, m')
        → (h' : Heap c.State) × ((settle_object h.cache.released h.meta
                (allocate c obj_size 0 0 h.cache)
              ≡ some (addr, h'))
            × (h'.cache ≡ m')
            × IsHeap c IsSlot Raw kept h')
    from_queue a pg addr half empty h m' v out v' eh ee any x_queued e =
        let lists : (b q : ℕ) → allocate c obj_size b q h.cache ≡ taken b q half empty h.cache =
          λ b q.
            allocate-taken b q h.cache
            ∙ ap (λ (xs : List ℕ). taken b q xs h.cache.empty h.cache) eh
            ∙ ap (λ (xs : List ℕ). taken b q half xs h.cache) ee in
        let e' : taken a pg half empty h.cache ≡ some (addr, m') = sym (lists a pg) ∙ e in
        let e0 : allocate c obj_size 0 0 h.cache ≡ some (addr, m') = lists 0 0 ∙ sym any ∙ e' in
        rw e0 (
          object-IsHeap a pg addr h.meta h.cache m' half empty out e' v' v.meta_valid
            (v.held _ x_queued) v.held)

    -- The three ways of `Allocate`, with the object `a` that `meta_slab_cache` would give.
    allocate-ways :
        (pg_meta a pg addr : ℕ) (half empty : List ℕ)
        → (h : Heap c.State) (meta : MemCache MetaSlab) (m' : MemCache c.State)
        → IsHeap c IsSlot Raw kept h
        → queued h.cache a ≡ false
        → IsValid c IsSlot Raw kept m'
        → h.cache.half ≡ half
        → h.cache.empty ≡ empty
        → allocate meta_slab_class 64 pg_meta pg_meta h.meta ≡ some (a, meta)
        → IsMetaValid meta
        → ((y : ℕ) → SlabOut meta y ↔ (SlabOut h.meta y ⊎ (y ≡ a)))
        → allocate c obj_size a pg h.cache ≡ some (addr, m')
        → (h' : Heap c.State) × ((heap_allocate c obj_size pg_meta pg half empty h
              ≡ some (addr, h'))
            × (h'.cache ≡ m')
            × IsHeap c IsSlot Raw kept h')
    unfolding heap_allocate allocate_new pick_slab queued
    allocate-ways pg_meta a pg addr (x ∷ half) empty h meta m' v out v' eh ee g w now e =
        from_queue a pg addr (x ∷ half) empty h m' v out v' eh ee
          (taken-cons a pg x half empty h.cache).0 (rw eh (ground arith)) e
    allocate-ways pg_meta a pg addr [] (x ∷ empty) h meta m' v out v' eh ee g w now e =
        from_queue a pg addr [] (x ∷ empty) h m' v out v' eh ee
          (taken-cons a pg x [] empty h.cache).1 (rw ee (ground arith)) e
    allocate-ways pg_meta a pg addr [] [] h meta m' v out v' eh ee g w now e =
        let e' : taken a pg [] [] h.cache ≡ some (addr, m') =
          ap (λ (xs : List ℕ). taken a pg xs [] h.cache) (sym eh)
          ∙ ap (λ (xs : List ℕ). taken a pg h.cache.half xs h.cache) (sym ee)
          ∙ sym (allocate-taken a pg h.cache)
          ∙ e in
        rw (allocate_new, g, e)
          (object-IsHeap a pg addr meta h.cache m' [] [] out e' v' w ((now a).1 (inr refl))
            (λ b b_queued. (now b).1 (inl (v.held b b_queued))))

    -- `Allocate` succeeds, where two pages can be had: it returns an address that was not handed out,
    -- apart from every object that was, and hands out nothing else. A new slab comes from `meta_slab_cache`, and is one that no slab
    -- of the cache has; both caches stay in order.
    pub heap_allocate-HandsOut :
        (first pg_meta pg : ℕ) (h : Heap c.State)
        → IsSlot first
        → IsHeap c IsSlot Raw kept h
        → IsMetaPage h.meta pg_meta
        → pg % page_size ≡ 0
        → ((b : ℕ) → queued h.cache b ≡ true → page_num pg ≢ page_num (h.cache.data_page b))
        → ((b : ℕ) → queued h.cache b ≡ false → Raw (h.cache.slab b))
        → (addr : ℕ) × (h' : Heap c.State) × ((heap_allocate c obj_size pg_meta pg h.cache.half
                h.cache.empty h
              ≡ some (addr, h'))
            × IsHeap c IsSlot Raw kept h'
            × ¬ HandedOut c IsSlot Raw kept obj_size h.cache addr
            × ((y : ℕ)
                → HandedOut c IsSlot Raw kept obj_size h.cache y
                → (y + obj_size ≤ addr) ⊎ (addr + obj_size ≤ y))
            × ((y : ℕ)
                → HandedOut c IsSlot Raw kept obj_size h'.cache y
                  ↔ (HandedOut c IsSlot Raw kept obj_size h.cache y ⊎ (y ≡ addr))))
    heap_allocate-HandsOut first pg_meta pg h slot v meta_page aligned unshared raw =
        let (a, meta, (g, w, new, far, now)) =
          allocate-HandsOut meta_slab_class IsBlock AnyMeta meta_slab-IsSlab 64 (omega arith)
            block_fits 1 pg_meta pg_meta h.meta (omega arith, omega arith) v.meta_valid meta_page in
        let out : queued h.cache a ≡ false = elim (Bool-cases (queued h.cache a)) [
          | inl in_queue ↦ absurd (new (v.held a in_queue))
          | inr apart ↦ apart
        ] in
        let (addr, m', (e, v', fresh, apart, outs)) =
          allocate-HandsOut c IsSlot Raw kept obj_size pos fits first a pg h.cache slot
            v.cache_valid
            (record { apart = out; raw = raw a out; aligned = aligned; unshared = unshared }) in
        let (h', (f, same, v'')) =
          allocate-ways pg_meta a pg addr h.cache.half h.cache.empty h meta m' v out v' refl refl g
            w now e in
        (
          addr,
          h',
          (
            f,
            v'',
            fresh,
            apart,
            λ y.
                subst
                  (λ m.
                    HandedOut c IsSlot Raw kept obj_size m y
                    ↔ (HandedOut c IsSlot Raw kept obj_size h.cache y ⊎ (y ≡ addr)))
                  (sym same) (outs y),
          ),
        )
