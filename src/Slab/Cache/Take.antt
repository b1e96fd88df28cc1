-- ===== src/Slab/Cache/Take.antt =====
-- Picking a slab, and taking an object from it.
use chestnut.Base.{
  ℕ, ◌+◌, ◌*◌, ◌%◌, ◌^◌, ◌≡◌, ◌≢◌, refl, ap, ◌∙◌, true, false, not, ◌&&◌, ◌||◌, some, List, [], ◌∷◌,
  ◌==◌, if◌then◌else◌, store, has, arith, inl, inr, Bool-cases, store_ne, store_self,
}
use chestnut.Pages.{page_size, page_num}
use chestnut.Slab.{SlabClass, IsSlab}
use chestnut.Slab.Cache.{
  MemCache, unlink, alloc_slab, init_slab, reclaim_empty_slab, adjust_slab, pick_slab, take_object,
}
use chestnut.Slab.Cache.Detached.{
  queued, queued-unlink, IsValid, IsDetached, unlink-IsDetached, update-IsDetached,
}
use chestnut.Slab.Cache.Rejoin.{used, adjust-IsValid}

pub adjust-data_page :
    (c : SlabClass) (a : ℕ) (m : MemCache c.State) → (adjust_slab c a m).data_page ≡ m.data_page
unfolding adjust_slab reclaim_empty_slab
adjust-data_page c a m = ground arith

module _ (c : SlabClass) (IsSlot : ℕ → Type 0) (Raw : c.State → Type 0)
    (kept : IsSlab c IsSlot Raw) where
  -- What the other allocators give for a new slab: memory that is no slab of the cache, and a page
  -- that no slab of the cache has.
  pub record IsFresh (m : MemCache c.State) (a pg : ℕ) : Type 0 where
    pub apart : queued m a ≡ false
    pub raw : Raw (m.slab a)
    pub aligned : pg % page_size ≡ 0
    pub unshared : (b : ℕ) → queued m b ≡ true → page_num pg ≢ page_num (m.data_page b)

  -- A slab is out of the queues, and the objects are still those of `m`.
  pub record IsPicked (m : MemCache c.State) (a : ℕ) (m' : MemCache c.State) : Type 0 where
    pub detached : IsDetached c IsSlot Raw kept a m'
    pub some_left : c.is_full (m'.slab a) ≡ false
    pub same :
        (b i : ℕ)
        → IsSlot i
        → used c IsSlot Raw kept m b i
          ≡ (if a == b then not (kept.slot_free (m'.slab a) i) else used c IsSlot Raw kept m' b i)

  pub used-unlink :
      (m : MemCache c.State) (a b i : ℕ)
      → queued m a ≡ true
      → used c IsSlot Raw kept m b i ≡ (
          if a == b
          then not (kept.slot_free (m.slab a) i)
          else used c IsSlot Raw kept (unlink a m) b i)
  unfolding used unlink
  used-unlink m a b i q = elim (Bool-cases (a == b)) [
    | inl same ↦
        let e : a ≡ b = ground arith in
        ground (arith, ap (λ x. kept.slot_free (m.slab x) i) e, ap (queued m) e)
    | inr other ↦ rw other (ground (arith, queued-unlink m a b))
  ]

  unlink-IsPicked :
      (m : MemCache c.State) (a : ℕ)
      → IsValid c IsSlot Raw kept m
      → queued m a ≡ true
      → c.is_full (m.slab a) ≡ false
      → IsPicked m a (unlink a m)
  unfolding unlink
  unlink-IsPicked m a v q some_left = record {
    detached = unlink-IsDetached c IsSlot Raw kept a m v q;
    some_left = some_left;
    same = λ b i lt. used-unlink m a b i q;
  }

  fresh-IsPicked :
      (first : ℕ) (m : MemCache c.State) (a pg : ℕ)
      → IsSlot first
      → IsValid c IsSlot Raw kept m
      → IsFresh m a pg
      → IsPicked m a (init_slab c a (alloc_slab a pg m))
  unfolding init_slab alloc_slab queued used
  fresh-IsPicked first m a pg pos v f =
      let made = kept.init_lem (m.slab a) f.raw in
      record {
        detached = record {
          rest = record {
            placed = λ b h.
                let p = v.placed b h in
                record {
                  valid = rw (store_ne m.slab a (c.init (m.slab a)) b (other b h)) p.valid;
                  aligned = rw (store_ne m.data_page a pg b (other b h)) p.aligned;
                  found = rw (store_ne m.data_page a pg b (other b h)) (
                      store_ne m.slab_ptr (page_num pg) a (page_num (m.data_page b))
                        (f.unshared b h)
                      ∙ p.found);
                };
            on_full = λ b h.
                rw (store_ne m.slab a (c.init (m.slab a)) b (other b (ground arith)))
                  (v.on_full b h);
            on_half = λ b h.
                rw (store_ne m.slab a (c.init (m.slab a)) b (other b (ground arith)))
                  (v.on_half b h);
            on_empty = λ b h.
                rw (store_ne m.slab a (c.init (m.slab a)) b (other b (ground arith)))
                  (v.on_empty b h);
          };
          apart = f.apart;
          here = record {
            valid = rw (store_self m.slab a (c.init (m.slab a))) made.0;
            aligned = rw (store_self m.data_page a pg) f.aligned;
            found = rw (store_self m.data_page a pg) (store_self m.slab_ptr (page_num pg) a);
          };
        };
        some_left =
            rw (store_self m.slab a (c.init (m.slab a))) (has_room made.0 (made.1 first pos));
        same = λ b i lt. rw (store_self m.slab a (c.init (m.slab a))) (elim (Bool-cases (a == b)) [
          | inl same ↦
              let e : a ≡ b = ground arith in
              rw same (ground (arith, ap (queued m) e, f.apart, made.1 i lt))
          | inr differ ↦ rw differ refl
        ]);
      }
    where
      other : (b : ℕ) → queued m b ≡ true → a ≢ b
      other b h e = cc (h, f.apart, e)

      has_room : {s : c.State} → kept.Valid s → kept.slot_free s first ≡ true → c.is_full s ≡ false
      has_room {s} ok unused = elim (Bool-cases (c.is_full s)) [
        | inl full ↦ cc ((kept.is_full_lem s ok).0 full first pos, unused)
        | inr room ↦ room
      ]

  -- Whichever queue it comes from, the slab that is picked has a free object.
  pub pick-IsPicked :
      (first : ℕ) (m : MemCache c.State) (a pg : ℕ) (half empty : List ℕ)
      → IsSlot first
      → IsValid c IsSlot Raw kept m
      → IsFresh m a pg
      → m.half ≡ half
      → m.empty ≡ empty
      → IsPicked m (pick_slab c a pg half empty m).0 (pick_slab c a pg half empty m).1
  unfolding pick_slab queued
  pick-IsPicked first m a pg (x ∷ half) empty pos v f eh ee =
      let here : has x m.half ≡ true = rw eh (ground arith) in
      unlink-IsPicked m x v (ground arith) (v.on_half x here).1
  pick-IsPicked first m a pg [] (x ∷ empty) pos v f eh ee =
      let here : has x m.empty ≡ true = rw ee (ground arith) in
      unlink-IsPicked m x v (ground arith) (v.on_empty x here).0
  pick-IsPicked first m a pg [] [] pos v f eh ee = fresh-IsPicked first m a pg pos v f

  -- Picking a slab moves no page of a slab of the cache.
  pub pick-data_page :
      (m : MemCache c.State) (a pg b : ℕ) (half empty : List ℕ)
      → queued m a ≡ false
      → queued m b ≡ true
      → (pick_slab c a pg half empty m).1.data_page b ≡ m.data_page b
  unfolding pick_slab init_slab alloc_slab unlink
  pick-data_page m a pg b (x ∷ half) empty out in_queue = refl
  pick-data_page m a pg b [] (x ∷ empty) out in_queue = refl
  pick-data_page m a pg b [] [] out in_queue =
      store_ne m.data_page a pg b (λ e. cc (ap (queued m) e, out, in_queue))

  -- A detached slab gets a state, and rejoins the queues.
  pub settle-IsValid :
      (m : MemCache c.State) (a k : ℕ) (s : c.State)
      → IsDetached c IsSlot Raw kept a m
      → kept.Valid s
      → IsValid c IsSlot Raw kept
          (adjust_slab c a (record m { slab = store m.slab a s; allocated = k }))
        × ((b j : ℕ)
            → IsSlot j
            → used c IsSlot Raw kept
                (adjust_slab c a (record m { slab = store m.slab a s; allocated = k }))
                b
                j
              ≡ (if a == b then not (kept.slot_free s j) else used c IsSlot Raw kept m b j))
  unfolding used queued
  settle-IsValid m a k s d ok =
      let r =
        adjust-IsValid c IsSlot Raw kept a (record m { slab = store m.slab a s; allocated = k })
          (update-IsDetached c IsSlot Raw kept a k s m d ok) in
      (r.0, λ b j h. r.1 b j h ∙ settled b j)
    where
      settled :
          (b j : ℕ)
          → (if a == b
              then not (kept.slot_free (store m.slab a s a) j)
              else used c IsSlot Raw kept (record m { slab = store m.slab a s; allocated = k }) b j)
            ≡ (if a == b then not (kept.slot_free s j) else used c IsSlot Raw kept m b j)
      settled b j = elim (Bool-cases (a == b)) [
        | inl same ↦ rw (same, store_self m.slab a s) refl
        | inr differ ↦ rw differ refl
      ]

  -- Taking an object from the slab that was picked.
  pub take-IsValid :
      (m m' : MemCache c.State) (obj_size a i : ℕ) (s : c.State)
      → IsPicked m a m'
      → c.alloc (m'.slab a) ≡ some (i, s)
      → kept.Valid s
      → IsSlot i
      → kept.slot_free (m'.slab a) i ≡ true
      → ((j : ℕ) → IsSlot j → kept.slot_free s j ≡ (kept.slot_free (m'.slab a) j && not (i == j)))
      → (m'' : MemCache c.State) × (take_object c obj_size a m'
          ≡ some (m''.data_page a + i * obj_size, m''))
        × IsValid c IsSlot Raw kept m''
        × (used c IsSlot Raw kept m a i ≡ false)
        × ((b j : ℕ)
            → IsSlot j
            → used c IsSlot Raw kept m'' b j
              ≡ (used c IsSlot Raw kept m b j || ((a == b) && (i == j))))
        × (m''.data_page ≡ m'.data_page)
  unfolding take_object
  take-IsValid m m' obj_size a i s p e ok lt unused taken =
      let k = (m'.allocated + 1) % 2 ^ 64 in
      let r = settle-IsValid m' a k s p.detached ok in
      (
        adjust_slab c a (record m' { slab = store m'.slab a s; allocated = k }),
        rw
            (
              e,
              take_object,
              adjust-data_page c a (record m' { slab = store m'.slab a s; allocated = k }),
            )
            refl,
        r.0,
        ground (arith, p.same a i lt, unused),
        λ b j h. ground (arith, r.1 b j h, p.same b j h, taken j h),
        adjust-data_page c a (record m' { slab = store m'.slab a s; allocated = k }),
      )
