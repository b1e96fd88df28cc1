-- ===== src/Slab/Heap/Settled.antt =====
-- What `AdjustSlab` does to the queues, and to the slabs that are released.
use chestnut.Base.{
  ℕ, ◌+◌, ◌-◌, ◌*◌, ◌%◌, ◌^◌, ◌≡◌, refl, subst, ◌∙◌, ◌⊎◌, inl, inr, true, false, ◌||◌, none, some,
  List, [], ◌∷◌, arith, Bool-cases, Option-cases, ◌==◌, store, leb,
}
use chestnut.Slab.{SlabClass}
use chestnut.Slab.Cache.{
  MemCache, unlink, alloc_slab, init_slab, reclaim_empty_slab, adjust_slab, pick_slab, take_object,
  give_object,
}
use chestnut.Slab.Cache.Detached.{queued, queued-unlink}

module _ (c : SlabClass) where
  -- The slab `x`, which is on no queue of `m0`, is put on one, or it is released, and
  -- the others stay on theirs.
  pub record IsSettled (x : ℕ) (m0 m' : MemCache c.State) : Type 0 where
    pub apart : queued m0 x ≡ false
    pub fate :
        ((m'.released ≡ m0.released) × ((b : ℕ) → queued m' b ≡ ((b == x) || queued m0 b)))
        ⊎ ((m'.released ≡ x ∷ m0.released) × ((b : ℕ) → queued m' b ≡ queued m0 b))

  -- No other slab leaves its queue.
  pub settled-queued :
      (x : ℕ) (m0 m' : MemCache c.State) (b : ℕ)
      → IsSettled x m0 m'
      → queued m0 b ≡ true
      → queued m' b ≡ true
  settled-queued x m0 m' b s q = elim s.fate [
    | inl (same, queues) ↦ ground (arith, queues b)
    | inr (more, queues) ↦ queues b ∙ q
  ]

  pub adjust-IsSettled :
      (x : ℕ) (m : MemCache c.State) → queued m x ≡ false → IsSettled x m (adjust_slab c x m)
  unfolding adjust_slab reclaim_empty_slab queued
  adjust-IsSettled x m out = record {
    apart = out;
    fate = elim (Bool-cases (c.is_full (m.slab x))) [
      | inl full ↦ rw full (inl (refl, λ b. ground arith))
      | inr room ↦ rw room (elim (Bool-cases (c.is_empty (m.slab x))) [
        | inl unused ↦ rw unused (elim (Bool-cases (leb m.slab_pg m.max_pg)) [
          | inl few ↦ rw few (inl (refl, λ b. ground arith))
          | inr many ↦ rw many (inr (refl, λ b. refl))
        ])
        | inr some_used ↦ rw some_used (inl (refl, λ b. ground arith))
      ])
    ];
  }

  pub take-IsSettled :
      (obj_size x addr : ℕ) (m m' : MemCache c.State)
      → queued m x ≡ false
      → take_object c obj_size x m ≡ some (addr, m')
      → IsSettled x m m'
  unfolding queued take_object
  take-IsSettled obj_size x addr m m' out e = elim (Option-cases (c.alloc (m.slab x))) [
    | inl failed ↦
        (let n : take_object c obj_size x m ≡ none = rw (failed, take_object) refl in cc (n, e))
    | inr ((idx, s), got) ↦
        let k = (m.allocated + 1) % 2 ^ 64 in
        let m1 : MemCache c.State = record m { slab = store m.slab x s; allocated = k } in
        let done : take_object c obj_size x m
            ≡ some (m.data_page x + idx * obj_size, adjust_slab c x m1) =
          rw (got, take_object) refl in
        let same : adjust_slab c x m1 ≡ m' = cc (done, e) in
        let a = adjust-IsSettled x m1 out in
        subst (IsSettled x m) same (record { apart = a.apart; fate = a.fate })
  ]

  pub give-IsSettled :
      (idx x : ℕ) (m m' : MemCache c.State)
      → give_object c idx x m ≡ some m'
      → IsSettled x (unlink x m) m'
  unfolding queued give_object
  give-IsSettled idx x m m' e =
      let m0 = unlink x m in
      elim (Option-cases (c.free idx (m0.slab x))) [
        | inl failed ↦
            (let n : give_object c idx x m ≡ none = rw (failed, give_object) refl in cc (n, e))
        | inr (s, got) ↦
            let k = (m0.allocated + (2 ^ 64 - 1)) % 2 ^ 64 in
            let out : queued (unlink x m) x ≡ false = queued-unlink m x x ∙ ground arith in
            let m1 : MemCache c.State = record m0 { slab = store m0.slab x s; allocated = k } in
            let done : give_object c idx x m ≡ some (adjust_slab c x m1) =
              rw (got, give_object) refl in
            let same : adjust_slab c x m1 ≡ m' = cc (done, e) in
            let a = adjust-IsSettled x m1 out in
            subst (IsSettled x m0) same (record { apart = a.apart; fate = a.fate })
      ]

  -- Which slab `Allocate` picks, and what is left on the queues.
  pub record IsChosen (a pg : ℕ) (half empty : List ℕ) (m : MemCache c.State) : Type 0 where
    pub apart : queued (pick_slab c a pg half empty m).1 (pick_slab c a pg half empty m).0 ≡ false
    pub fewer : (b : ℕ) → queued (pick_slab c a pg half empty m).1 b ≡ true → queued m b ≡ true
    pub released_lem : (pick_slab c a pg half empty m).1.released ≡ m.released

  released-unlink : (x : ℕ) (m : MemCache c.State) → (unlink x m).released ≡ m.released
  unfolding unlink
  released-unlink x m = refl

  pub pick-IsChosen :
      (a pg : ℕ) (half empty : List ℕ) (m : MemCache c.State)
      → queued m a ≡ false
      → IsChosen a pg half empty m
  unfolding pick_slab init_slab alloc_slab queued
  pick-IsChosen a pg (x ∷ half) empty m out = record {
    apart = queued-unlink m x x ∙ ground arith;
    fewer = λ b h. ground (arith, queued-unlink m x b);
    released_lem = released-unlink x m;
  }
  pick-IsChosen a pg [] (x ∷ empty) m out = record {
    apart = queued-unlink m x x ∙ ground arith;
    fewer = λ b h. ground (arith, queued-unlink m x b);
    released_lem = released-unlink x m;
  }
  pick-IsChosen a pg [] [] m out = record { apart = out; fewer = λ b h. h; released_lem = refl }
