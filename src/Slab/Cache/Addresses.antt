-- ===== src/Slab/Cache/Addresses.antt =====
-- What a cache promises its callers, in addresses: `Allocate` returns one that is not handed out, and
-- `Free` takes that one back.
use native.Mathlib.Decide.{dec_lt}
use chestnut.Base.{
  ℕ, ◌+◌, ◌-◌, ◌*◌, ◌/◌, ◌≤◌, ◌<◌, ◌≡◌, ◌≢◌, refl, sym, ap, ◌∙◌, ◌↔◌, ◌⊎◌, inl, inr, true, false,
  some, ◌==◌, ◌&&◌, arith, Bool-cases, subst,
}
use chestnut.Pages.{page_size, page_num, page_base}
use chestnut.Slab.{SlabClass, IsSlab}
use chestnut.Slab.Cache.{MemCache, allocate, free}
use chestnut.Slab.Cache.Detached.{IsValid}
use chestnut.Slab.Cache.Rejoin.{used}
use chestnut.Slab.Cache.Take.{IsFresh}
use chestnut.Slab.Cache.Laws.{object_place, queued_of_used, allocate-Takes, free-Gives}

module _ (c : SlabClass) (IsSlot : ℕ → Type 0) (Raw : c.State → Type 0)
    (kept : IsSlab c IsSlot Raw) where
  module _ (obj_size : ℕ) where
    -- An address is that of object `i` of the slab `a`, and the object is in use.
    pub record IsHeld (m : MemCache c.State) (addr a i : ℕ) : Type 0 where
      pub at_slot : IsSlot i
      pub in_use : used c IsSlot Raw kept m a i ≡ true
      pub place : addr ≡ m.data_page a + i * obj_size

    -- An address that the cache has handed out.
    abbrev pub HandedOut : MemCache c.State → ℕ → Type 0
    HandedOut m addr = (a : ℕ) × (i : ℕ) × IsHeld m addr a i

    module _ (pos : 0 < obj_size)
        (fits : (j : ℕ) → IsSlot j → j * obj_size + obj_size ≤ page_size) where
      pub held_place :
          (m : MemCache c.State) (addr a i : ℕ)
          → IsValid c IsSlot Raw kept m
          → IsHeld m addr a i
          → (m.slab_ptr (page_num addr) ≡ a) × ((addr - page_base addr) / obj_size ≡ i)
      held_place m addr a i v h =
          let p = v.placed a (queued_of_used c IsSlot Raw kept m a i h.in_use) in
          let place = object_place (m.data_page a) i obj_size p.aligned pos (fits i h.at_slot) in
          rw h.place (ap m.slab_ptr place.0 ∙ p.found, place.1)

      -- An address stands for one object.
      held_same :
          (m : MemCache c.State) (addr a b i j : ℕ)
          → IsValid c IsSlot Raw kept m
          → IsHeld m addr a i
          → IsHeld m addr b j
          → (a ≡ b) × (i ≡ j)
      held_same m addr a b i j v g h =
          let p = held_place m addr a i v g in
          let q = held_place m addr b j v h in (sym p.0 ∙ q.0, sym p.1 ∙ q.1)

      -- Two objects that are handed out do not overlap.
      pub handed_out-apart :
          (m : MemCache c.State) (x y : ℕ)
          → IsValid c IsSlot Raw kept m
          → HandedOut m x
          → HandedOut m y
          → x < y
          → x + obj_size ≤ y
      handed_out-apart m x y v (a, i, g) (b, j, h) lt =
          let p = v.placed a (queued_of_used c IsSlot Raw kept m a i g.in_use) in
          let q = v.placed b (queued_of_used c IsSlot Raw kept m b j h.in_use) in
          let fit_x = fits i g.at_slot in
          let fit_y = fits j h.at_slot in
          elim (dec_lt (page_num (m.data_page a)) (page_num (m.data_page b))) [
            | yes less ↦ omega (arith, g.place, h.place, p.aligned, q.aligned)
            | no more ↦
                let le : page_num (m.data_page a) ≤ page_num (m.data_page b) =
                  omega (arith, g.place, h.place, p.aligned, q.aligned) in
                let same_page : page_num (m.data_page a) ≡ page_num (m.data_page b) = omega arith in
                let base : m.data_page a ≡ m.data_page b = omega (arith, p.aligned, q.aligned) in
                let order : i * obj_size < j * obj_size = omega (arith, g.place, h.place) in
                let less : i < j = grind arith in
                let step : i * obj_size + obj_size ≤ j * obj_size = grind arith in
                omega (arith, g.place, h.place)
          ]

      -- `Allocate` succeeds, where a new slab can be had: it returns an address that was not handed out,
      -- and from then on that one is handed out too, and nothing else changes.
      pub allocate-HandsOut :
          (first a pg : ℕ) (m : MemCache c.State)
          → IsSlot first
          → IsValid c IsSlot Raw kept m
          → IsFresh c IsSlot Raw kept m a pg
          → (addr : ℕ) × (m' : MemCache c.State) × ((allocate c obj_size a pg m ≡ some (addr, m'))
              × IsValid c IsSlot Raw kept m'
              × ¬ HandedOut m addr
              × ((y : ℕ) → HandedOut m y → (y + obj_size ≤ addr) ⊎ (addr + obj_size ≤ y))
              × ((y : ℕ) → HandedOut m' y ↔ (HandedOut m y ⊎ (y ≡ addr))))
      allocate-HandsOut first a pg m slot v f =
          let (x, i, m', (e, v', lt, was, now, pages)) =
            allocate-Takes c IsSlot Raw kept first obj_size a pg m slot v f in
          let addr = m'.data_page x + i * obj_size in
          let kept_page = λ (b j : ℕ) (h : used c IsSlot Raw kept m b j ≡ true).
            pages b (queued_of_used c IsSlot Raw kept m b j h) in
          let still : (y b j : ℕ) → IsHeld m y b j → IsHeld m' y b j = λ y b j h. record {
            at_slot = h.at_slot;
            in_use = now b j h.at_slot ∙ ground (arith, h.in_use);
            place = rw (kept_page b j h.in_use) h.place;
          } in
          let here : IsHeld m' addr x i = record {
            at_slot = lt;
            in_use = now x i lt ∙ ground arith;
            place = refl;
          } in
          let new : ¬ HandedOut m addr = λ (b, j, h).
            let s = held_same m' addr x b i j v' here (still addr b j h) in
            cc (was, s.0, s.1, h.in_use) in
          let old : (y : ℕ) → HandedOut m y → HandedOut m' y =
            λ y (b, j, h). (b, j, still y b j h) in
          (
            addr,
            m',
            (
              e,
              v',
              new,
              λ y out. elim (dec_lt y addr) [
                | yes below ↦ inl (handed_out-apart m' y addr v' (old y out) (x, i, here) below)
                | no above ↦ elim (dec_lt addr y) [
                  | yes below ↦ inr (handed_out-apart m' addr y v' (x, i, here) (old y out) below)
                  | no not_below ↦
                      let same : y ≡ addr = omega arith in
                      absurd (new (subst (HandedOut m) same out))
                ]
              ],
              λ y. (
                λ (b, j, h). elim (Bool-cases (used c IsSlot Raw kept m b j)) [
                  | inl old ↦ inl (
                    b,
                    j,
                    record {
                      at_slot = h.at_slot;
                      in_use = old;
                      place = h.place ∙ ap (λ (d : ℕ). d + j * obj_size) (kept_page b j old);
                    },
                  )
                  | inr new ↦
                      let n = now b j h.at_slot in
                      let both : ((x == b) && (i == j)) ≡ true = ground (arith, n, h.in_use) in
                      inr (ground (arith, h.place))
                ],
                λ either. elim either [
                  | inl (b, j, h) ↦ (b, j, still y b j h)
                  | inr e ↦ (x, i, rw e here)
                ],
              ),
            ),
          )

      -- `Free` of an address that is handed out succeeds: from then on that one is not handed out, and
      -- nothing else changes.
      pub free-TakesBack :
          (m : MemCache c.State) (addr : ℕ)
          → IsValid c IsSlot Raw kept m
          → HandedOut m addr
          → (m' : MemCache c.State) × ((free c obj_size addr m ≡ some m')
              × IsValid c IsSlot Raw kept m'
              × ((y : ℕ) → HandedOut m' y ↔ (HandedOut m y × (y ≢ addr))))
      free-TakesBack m addr v (a, i, g) =
          let (m', e, v', now, pages) =
            free-Gives c IsSlot Raw kept obj_size a i m pos fits v g.at_slot g.in_use in
          let page = λ (b : ℕ). ap (λ (p : ℕ → ℕ). p b) pages in
          let back : (y b j : ℕ) → IsHeld m' y b j → IsHeld m y b j = λ y b j h. record {
            at_slot = h.at_slot;
            in_use = ground (arith, now b j h.at_slot, h.in_use);
            place = h.place ∙ ap (λ (d : ℕ). d + j * obj_size) (page b);
          } in
          (
            m',
            (
              rw g.place e,
              v',
              λ y. (
                λ (b, j, h). (
                  (b, j, back y b j h),
                  λ same.
                      let s = held_same m addr a b i j v g (rw (sym same) (back y b j h)) in
                      ground (arith, s.0, s.1, now b j h.at_slot, h.in_use),
                ),
                λ ((b, j, h), differ).
                    let other : ((a == b) && (i == j)) ≡ false =
                      elim (Bool-cases ((a == b) && (i == j))) [
                        | inl both ↦
                            let ea : a ≡ b = ground arith in
                            let ei : i ≡ j = ground arith in
                            absurd (
                              differ (
                                h.place
                                ∙ ap (λ (k : ℕ). m.data_page b + k * obj_size) (sym ei)
                                ∙ ap (λ (k : ℕ). m.data_page k + i * obj_size) (sym ea)
                                ∙ sym g.place))
                        | inr no_match ↦ no_match
                      ] in
                    (
                      b,
                      j,
                      record {
                        at_slot = h.at_slot;
                        in_use = ground (arith, now b j h.at_slot, h.in_use);
                        place = h.place ∙ ap (λ (d : ℕ). d + j * obj_size) (sym (page b));
                      },
                    ),
              ),
            ),
          )
