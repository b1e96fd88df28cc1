-- ===== src/Slab/Cache/Detached.antt =====
-- The invariant of a cache, and a slab that is on no queue for a while.
use chestnut.Base.{
  ℕ, ◌%◌, ◌≡◌, ◌≢◌, refl, Bool, true, false, not, ◌&&◌, ◌||◌, List, [], ◌∷◌, ◌==◌, store, has,
  arith, store_ne, store_self,
}
use chestnut.Pages.{page_size, page_num}
use chestnut.Slab.{SlabClass, IsSlab}
use chestnut.Slab.Cache.{MemCache, without, unlink}

pub has-without : (b a : ℕ) (xs : List ℕ) → has b (without a xs) ≡ (has b xs && not (a == b))
unfolding without
has-without b a [] = refl
has-without b a (x ∷ xs) = ground (arith, has-without b a xs)

-- A slab that is on one of the queues.
unfoldable pub queued : {Slab : Type 0} → MemCache Slab → ℕ → Bool
queued m a = has a m.full || (has a m.half || has a m.empty)

pub queued-unlink :
    {Slab : Type 0} (m : MemCache Slab) (a b : ℕ)
    → queued (unlink a m) b ≡ (queued m b && not (a == b))
unfolding queued unlink
queued-unlink m a b =
    ground (arith, has-without b a m.full, has-without b a m.half, has-without b a m.empty)

module _ (c : SlabClass) (IsSlot : ℕ → Type 0) (Raw : c.State → Type 0)
    (kept : IsSlab c IsSlot Raw) where
  -- A slab with its page, which leads back to it.
  pub record IsPlaced (m : MemCache c.State) (a : ℕ) : Type 0 where
    pub valid : kept.Valid (m.slab a)
    pub aligned : m.data_page a % page_size ≡ 0
    pub found : m.slab_ptr (page_num (m.data_page a)) ≡ a

  -- Each slab that is on a queue has its page, and is on the one queue that it belongs to.
  pub record IsValid (m : MemCache c.State) : Type 0 where
    pub placed : (a : ℕ) → queued m a ≡ true → IsPlaced m a
    pub on_full :
        (a : ℕ)
        → has a m.full ≡ true
        → (has a m.half ≡ false) × (has a m.empty ≡ false) × (c.is_full (m.slab a) ≡ true)
    pub on_half :
        (a : ℕ)
        → has a m.half ≡ true
        → (has a m.empty ≡ false) × (c.is_full (m.slab a) ≡ false) × (c.is_empty (m.slab a) ≡ false)
    pub on_empty :
        (a : ℕ)
        → has a m.empty ≡ true
        → (c.is_full (m.slab a) ≡ false) × (c.is_empty (m.slab a) ≡ true)

  -- A slab apart from the queues, in between.
  pub record IsDetached (a : ℕ) (m : MemCache c.State) : Type 0 where
    pub rest : IsValid m
    pub apart : queued m a ≡ false
    pub here : IsPlaced m a

  pub unlink-IsDetached :
      (a : ℕ) (m : MemCache c.State) → IsValid m → queued m a ≡ true → IsDetached a (unlink a m)
  unfolding unlink
  unlink-IsDetached a m v q = record {
    rest = record {
      placed = λ b h.
          let p = v.placed b (ground (arith, queued-unlink m a b)) in
          record { valid = p.valid; aligned = p.aligned; found = p.found };
      on_full = λ b h.
          let f = v.on_full b (ground (arith, has-without b a m.full)) in
          (
            ground (arith, f.0, has-without b a m.half),
            ground (arith, f.1, has-without b a m.empty),
            f.2,
          );
      on_half = λ b h.
          let f = v.on_half b (ground (arith, has-without b a m.half)) in
          (ground (arith, f.0, has-without b a m.empty), f.1, f.2);
      on_empty = λ b h. v.on_empty b (ground (arith, has-without b a m.empty));
    };
    apart = ground (arith, queued-unlink m a a);
    here = let p = v.placed a q in record { valid = p.valid; aligned = p.aligned; found = p.found };
  }

  -- A detached slab may change its state.
  pub update-IsDetached :
      (a k : ℕ) (s : c.State) (m : MemCache c.State)
      → IsDetached a m
      → kept.Valid s
      → IsDetached a (record m { slab = store m.slab a s; allocated = k })
  unfolding queued
  update-IsDetached a k s m d ok = record {
    rest = record {
      placed = λ b h.
          let p = d.rest.placed b h in
          record {
            valid = rw (store_ne m.slab a s b (other b h)) p.valid;
            aligned = p.aligned;
            found = p.found;
          };
      on_full = λ b h. rw (store_ne m.slab a s b (other b (ground arith))) (d.rest.on_full b h);
      on_half = λ b h. rw (store_ne m.slab a s b (other b (ground arith))) (d.rest.on_half b h);
      on_empty = λ b h. rw (store_ne m.slab a s b (other b (ground arith))) (d.rest.on_empty b h);
    };
    apart = d.apart;
    here = record {
      valid = rw (store_self m.slab a s) ok;
      aligned = d.here.aligned;
      found = d.here.found;
    };
  }
    where
      other : (b : ℕ) → queued m b ≡ true → a ≢ b
      other b h e = cc (h, d.apart, e)
