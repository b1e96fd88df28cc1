-- ===== src/Slab/Cache/Rejoin.antt =====
-- `AdjustSlab`: a detached slab rejoins the queue that its state asks for, or leaves the cache.
use chestnut.Base.{
  ℕ, ◌-◌, ◌≡◌, Bool, true, false, not, ◌&&◌, ◌||◌, ◌∷◌, leb, ◌==◌, if◌then◌else◌, arith, inl, inr,
  Bool-cases,
}
use chestnut.Slab.{SlabClass, IsSlab}
use chestnut.Slab.Cache.{MemCache, reclaim_empty_slab, adjust_slab}
use chestnut.Slab.Cache.Detached.{queued, IsPlaced, IsValid, IsDetached}

module _ (c : SlabClass) (IsSlot : ℕ → Type 0) (Raw : c.State → Type 0)
    (kept : IsSlab c IsSlot Raw) where
  -- Object `i` of slab `a` has been handed out.
  unfoldable pub used : MemCache c.State → ℕ → ℕ → Bool
  used m a i = queued m a && not (kept.slot_free (m.slab a) i)

  rejoin-used :
      (m : MemCache c.State) (a b i : ℕ) (q : Bool)
      → queued m a ≡ false
      → q ≡ ((b == a) || queued m b)
      → (q && not (kept.slot_free (m.slab b) i))
        ≡ (if a == b then not (kept.slot_free (m.slab a) i) else used m b i)
  unfolding used
  rejoin-used m a b i q apart e = elim (Bool-cases (b == a)) [
    | inl same ↦ let same_slab : b ≡ a = ground arith in rw (e, same_slab) (ground arith)
    | inr other ↦ rw (e, other) (ground arith)
  ]

  leave-used :
      (m : MemCache c.State) (a b i : ℕ)
      → queued m a ≡ false
      → kept.slot_free (m.slab a) i ≡ true
      → used m b i ≡ (if a == b then not (kept.slot_free (m.slab a) i) else used m b i)
  unfolding used
  leave-used m a b i apart unused = elim (Bool-cases (b == a)) [
    | inl same ↦ let same_slab : b ≡ a = ground arith in rw same_slab (ground arith)
    | inr other ↦ ground arith
  ]

  module _ (a : ℕ) (m : MemCache c.State) (d : IsDetached c IsSlot Raw kept a m) where
    join_full :
        c.is_full (m.slab a) ≡ true → IsValid c IsSlot Raw kept (record m { full = a ∷ m.full })
    unfolding queued
    join_full f = record {
      placed = λ b h. elim (Bool-cases (b == a)) [
        | inl same ↦ let e : b ≡ a = ground arith in rw e (moved d.here)
        | inr other ↦ moved (d.rest.placed b (ground arith))
      ];
      on_full = λ b h. elim (Bool-cases (b == a)) [
        | inl same ↦
            let e : b ≡ a = ground arith in
            rw e (ground (arith, d.apart), ground (arith, d.apart), f)
        | inr other ↦ d.rest.on_full b (ground arith)
      ];
      on_half = d.rest.on_half;
      on_empty = d.rest.on_empty;
    }
      where
        moved :
            {b : ℕ}
            → IsPlaced c IsSlot Raw kept m b
            → IsPlaced c IsSlot Raw kept (record m { full = a ∷ m.full }) b
        moved p = record { valid = p.valid; aligned = p.aligned; found = p.found }

    join_half :
        c.is_full (m.slab a) ≡ false
        → c.is_empty (m.slab a) ≡ false
        → IsValid c IsSlot Raw kept (record m { half = a ∷ m.half })
    unfolding queued
    join_half f g = record {
      placed = λ b h. elim (Bool-cases (b == a)) [
        | inl same ↦ let e : b ≡ a = ground arith in rw e (moved d.here)
        | inr other ↦ moved (d.rest.placed b (ground arith))
      ];
      on_full = λ b h.
          let r = d.rest.on_full b h in
          (
            elim (Bool-cases (b == a)) [
              | inl same ↦ absurd (ground (arith, d.apart, h))
              | inr other ↦ ground (arith, r.0)
            ],
            r.1,
            r.2,
          );
      on_half = λ b h. elim (Bool-cases (b == a)) [
        | inl same ↦ let e : b ≡ a = ground arith in rw e (ground (arith, d.apart), f, g)
        | inr other ↦ d.rest.on_half b (ground arith)
      ];
      on_empty = d.rest.on_empty;
    }
      where
        moved :
            {b : ℕ}
            → IsPlaced c IsSlot Raw kept m b
            → IsPlaced c IsSlot Raw kept (record m { half = a ∷ m.half }) b
        moved p = record { valid = p.valid; aligned = p.aligned; found = p.found }

    join_empty :
        c.is_full (m.slab a) ≡ false
        → c.is_empty (m.slab a) ≡ true
        → IsValid c IsSlot Raw kept (record m { empty = a ∷ m.empty })
    unfolding queued
    join_empty f g = record {
      placed = λ b h. elim (Bool-cases (b == a)) [
        | inl same ↦ let e : b ≡ a = ground arith in rw e (moved d.here)
        | inr other ↦ moved (d.rest.placed b (ground arith))
      ];
      on_full = λ b h.
          let r = d.rest.on_full b h in
          (
            r.0,
            elim (Bool-cases (b == a)) [
              | inl same ↦ absurd (ground (arith, d.apart, h))
              | inr other ↦ ground (arith, r.1)
            ],
            r.2,
          );
      on_half = λ b h.
          let r = d.rest.on_half b h in
          (
            elim (Bool-cases (b == a)) [
              | inl same ↦ absurd (ground (arith, d.apart, h))
              | inr other ↦ ground (arith, r.0)
            ],
            r.1,
            r.2,
          );
      on_empty = λ b h. elim (Bool-cases (b == a)) [
        | inl same ↦ let e : b ≡ a = ground arith in rw e (f, g)
        | inr other ↦ d.rest.on_empty b (ground arith)
      ];
    }
      where
        moved :
            {b : ℕ}
            → IsPlaced c IsSlot Raw kept m b
            → IsPlaced c IsSlot Raw kept (record m { empty = a ∷ m.empty }) b
        moved p = record { valid = p.valid; aligned = p.aligned; found = p.found }

    join_none :
        IsValid c IsSlot Raw kept (record m { slab_pg = m.slab_pg - 1; released = a ∷ m.released })
    unfolding queued
    join_none = record {
      placed = λ b h.
          let p = d.rest.placed b h in
          record { valid = p.valid; aligned = p.aligned; found = p.found };
      on_full = d.rest.on_full;
      on_half = d.rest.on_half;
      on_empty = d.rest.on_empty;
    }

  -- The slab goes on the queue that its state asks for, or is released when it is empty.
  pub adjust-IsValid :
      (a : ℕ) (m : MemCache c.State)
      → IsDetached c IsSlot Raw kept a m
      → IsValid c IsSlot Raw kept (adjust_slab c a m)
        × ((b i : ℕ)
            → IsSlot i
            → used (adjust_slab c a m) b i
              ≡ (if a == b then not (kept.slot_free (m.slab a) i) else used m b i))
  unfolding adjust_slab reclaim_empty_slab used queued
  adjust-IsValid a m d = elim (Bool-cases (c.is_full (m.slab a))) [
    | inl full ↦
        rw full (join_full a m d full, λ b i lt. rejoin-used m a b i _ d.apart (ground arith))
    | inr some_left ↦ elim (Bool-cases (c.is_empty (m.slab a))) [
      | inl empty ↦ elim (Bool-cases (leb m.slab_pg m.max_pg)) [
        | inl keep ↦
            rw (some_left, empty, keep)
              (
                join_empty a m d some_left empty,
                λ b i lt. rejoin-used m a b i _ d.apart (ground arith),
              )
        | inr drop ↦
            rw (some_left, empty, drop)
              (
                join_none a m d,
                λ b i lt.
                    leave-used m a b i d.apart
                      ((kept.is_empty_lem (m.slab a) d.here.valid).0 empty i lt),
              )
      ]
      | inr half ↦
          rw (some_left, half)
            (join_half a m d some_left half, λ b i lt. rejoin-used m a b i _ d.apart (ground arith))
    ]
  ]
