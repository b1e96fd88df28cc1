-- ===== src/Slab/Heap/Release.antt =====
-- Both caches in order: what `BaseSlab::FreeSlab` keeps, and `Free`.
use chestnut.Base.{
  ℕ, ◌+◌, ◌-◌, ◌/◌, ◌*◌, ◌≤◌, ◌<◌, ◌≡◌, ◌≢◌, refl, sym, ap, subst, ◌∙◌, ◌↔◌, inl, inr, true, some,
  List, [], ◌∷◌, length, Bool-cases, ◌==◌, ==_refl, ==_ne, arith,
}
use chestnut.Pages.{page_size, page_num, page_base}
use chestnut.Slab.{SlabClass, IsSlab}
use chestnut.Slab.Cache.{MemCache, unlink, give_object, free}
use chestnut.Slab.Cache.Detached.{queued, queued-unlink, IsValid}
use chestnut.Slab.Cache.Take.{IsFresh}
use chestnut.Slab.Cache.Laws.{queued_of_used}
use chestnut.Slab.Cache.Addresses.{HandedOut, held_place, free-TakesBack}
use chestnut.Slab.Meta.{MetaSlab}
use chestnut.Slab.Meta.Listed.{IsBlock}
use chestnut.Slab.Meta.Laws.{meta_slab_class, meta_slab-IsSlab}
use chestnut.Slab.Heap.{Heap, free_released, settle_heap, heap_free}
use chestnut.Slab.Heap.Settled.{IsSettled, settled-queued, give-IsSettled}

abbrev pub AnyMeta : MetaSlab → Type 0
AnyMeta s = Unit {0}

abbrev pub IsMetaValid : MemCache MetaSlab → Type 0
IsMetaValid m = IsValid meta_slab_class IsBlock AnyMeta meta_slab-IsSlab m

-- The cache of slabs has handed out an address.
abbrev pub SlabOut : MemCache MetaSlab → ℕ → Type 0
SlabOut m a = HandedOut meta_slab_class IsBlock AnyMeta meta_slab-IsSlab 64 m a

-- A page for a new `MetaSlab`.
abbrev pub IsMetaPage : MemCache MetaSlab → ℕ → Type 0
IsMetaPage m pg = IsFresh meta_slab_class IsBlock AnyMeta meta_slab-IsSlab m pg pg

pub block_fits : (j : ℕ) → IsBlock j → j * 64 + 64 ≤ page_size
block_fits j (pos, lt) = omega arith

free_released_same :
    (before : List ℕ) (meta : MemCache MetaSlab) → free_released before before meta ≡ some meta
unfolding free_released
free_released_same [] meta = refl
free_released_same (x ∷ xs) meta =
    rw (==_ne (length xs) (length (x ∷ xs)) (λ z. omega (arith, z))) refl

free_released_more :
    (x : ℕ) (before : List ℕ) (meta : MemCache MetaSlab)
    → free_released before (x ∷ before) meta ≡ free meta_slab_class 64 x meta
unfolding free_released
free_released_more x before meta = rw (==_refl (length before)) refl

module _ (c : SlabClass) (IsSlot : ℕ → Type 0) (Raw : c.State → Type 0)
    (kept : IsSlab c IsSlot Raw) where
  -- Both caches are in order, and each slab of the one is an object that the other has handed out.
  pub record IsHeap (h : Heap c.State) : Type 0 where
    pub meta_valid : IsMetaValid h.meta
    pub cache_valid : IsValid c IsSlot Raw kept h.cache
    pub held : (b : ℕ) → queued h.cache b ≡ true → SlabOut h.meta b

  pub settle_heap-IsHeap :
      (x : ℕ) (meta : MemCache MetaSlab) (m0 m' : MemCache c.State)
      → IsSettled c x m0 m'
      → IsValid c IsSlot Raw kept m'
      → IsMetaValid meta
      → SlabOut meta x
      → ((b : ℕ) → queued m0 b ≡ true → SlabOut meta b)
      → (h : Heap c.State) × ((settle_heap m0.released meta m' ≡ some h)
          × (h.cache ≡ m')
          × IsHeap h
          × ((b : ℕ) → SlabOut h.meta b ↔ (SlabOut meta b × (b ≡ x → queued m' b ≡ true))))
  unfolding settle_heap
  settle_heap-IsHeap x meta m0 m' s v w out held = elim s.fate [
    | inl (same, queues) ↦
        let e : free_released m0.released m'.released meta ≡ some meta =
          rw same (free_released_same m0.released meta) in
        (
          record { meta = meta; cache = m' },
          (
            rw (e, settle_heap) refl,
            refl,
            record {
              meta_valid = w;
              cache_valid = v;
              held = λ b h. elim (Bool-cases (b == x)) [
                | inl here ↦ let e : x ≡ b = ground arith in subst (SlabOut meta) e out
                | inr other ↦ held b (ground (arith, queues b))
              ];
            },
            λ b. (λ o. (o, λ here. ground (arith, queues b)), λ o. o.0),
          ),
        )
    | inr (more, queues) ↦
        let (meta', (f, w', back)) =
          free-TakesBack meta_slab_class IsBlock AnyMeta meta_slab-IsSlab 64 (omega arith)
            block_fits meta x w out in
        let e : free_released m0.released m'.released meta ≡ some meta' =
          rw more (free_released_more x m0.released meta ∙ f) in
        (
          record { meta = meta'; cache = m' },
          (
            rw (e, settle_heap) refl,
            refl,
            record {
              meta_valid = w';
              cache_valid = v;
              held = λ b h.
                  let old : queued m0 b ≡ true = sym (queues b) ∙ h in
                  (back b).1 (held b old, λ here. cc (ap (queued m0) here, old, s.apart));
            },
            λ b. (
              λ o. let (was, other) = (back b).0 o in (was, λ here. absurd (other here)),
              λ (was, stays).
                  (back b).1 (was, λ here. cc (stays here, queues b, ap (queued m0) here, s.apart)),
            ),
          ),
        )
  ]

  module _ (obj_size : ℕ) (pos : 0 < obj_size)
      (fits : (j : ℕ) → IsSlot j → j * obj_size + obj_size ≤ page_size) where
    abbrev Out : Heap c.State → ℕ → Type 0
    Out h y = HandedOut c IsSlot Raw kept obj_size h.cache y

    -- `Free` of an object that the cache has handed out succeeds, and takes back that one only. If its
    -- slab leaves the queues, then `meta_slab_cache` takes the slab back, and takes back no other.
    pub heap_free-TakesBack :
        (h : Heap c.State) (addr : ℕ)
        → IsHeap h
        → HandedOut c IsSlot Raw kept obj_size h.cache addr
        → (h' : Heap c.State) × ((heap_free c obj_size addr h ≡ some h')
            × IsHeap h'
            × ((y : ℕ)
                → HandedOut c IsSlot Raw kept obj_size h'.cache y
                  ↔ (HandedOut c IsSlot Raw kept obj_size h.cache y × (y ≢ addr)))
            × ((b : ℕ)
                → SlabOut h'.meta b
                  ↔ (SlabOut h.meta b × (queued h.cache b ≡ true → queued h'.cache b ≡ true))))
    unfolding heap_free free unlink
    heap_free-TakesBack h addr v out =
        let (m', (e, v', back)) =
          free-TakesBack c IsSlot Raw kept obj_size pos fits h.cache addr v.cache_valid out in
        let (a, i, g) = out in
        let x = h.cache.slab_ptr (page_num addr) in
        let e0 : give_object c ((addr - page_base addr) / obj_size) x h.cache ≡ some m' = e in
        let s = give-IsSettled c ((addr - page_base addr) / obj_size) x h.cache m' e0 in
        let at_a : x ≡ a =
          (held_place c IsSlot Raw kept obj_size pos fits h.cache addr a i v.cache_valid g).0 in
        let in_queue : queued h.cache x ≡ true =
          rw at_a (queued_of_used c IsSlot Raw kept h.cache a i g.in_use) in
        let (h', (f, same, v'', slabs)) =
          settle_heap-IsHeap x h.meta (unlink x h.cache) m' s v' v.meta_valid (v.held x in_queue)
            (λ b left. v.held b (ground (arith, queued-unlink h.cache x b))) in
        let left : (b : ℕ) → b ≢ x → queued h.cache b ≡ true → queued m' b ≡ true = λ b other q.
          settled-queued c x (unlink x h.cache) m' b s
            (ground (arith, queued-unlink h.cache x b)) in
        let still : (b : ℕ)
            → SlabOut h.meta b
            → (b ≡ x → queued m' b ≡ true)
            → queued h.cache b ≡ true
            → queued m' b ≡ true =
          λ b was stays q. elim (Bool-cases (b == x)) [
            | inl here ↦ stays (ground arith)
            | inr other ↦ left b (ground arith) q
          ] in
        (
          h',
          (
            rw (e, heap_free) f,
            v'',
            λ y.
                subst
                  (λ m.
                    HandedOut c IsSlot Raw kept obj_size m y
                    ↔ (HandedOut c IsSlot Raw kept obj_size h.cache y × (y ≢ addr)))
                  (sym same) (back y),
            λ b. (
              λ o.
                  let (was, stays) = (slabs b).0 o in
                  (was, λ q. ap (λ (m : MemCache c.State). queued m b) same ∙ still b was stays q),
              λ (was, stays). (slabs b).1 (
                was,
                λ here.
                    sym (ap (λ (m : MemCache c.State). queued m b) same)
                    ∙ stays (ap (queued h.cache) here ∙ in_queue),
              ),
            ),
          ),
        )
