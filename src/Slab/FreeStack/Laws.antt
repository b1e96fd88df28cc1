-- ===== src/Slab/FreeStack/Laws.antt =====
-- `FreeListSlab` keeps the slab interface: the entries below `nr_free` are the free objects.
use chestnut.Base.{
  ℕ, zero, suc, ◌+◌, ◌-◌, ◌≤◌, ◌<◌, ◌≡◌, ◌↔◌, refl, true, false, not, ◌&&◌, ◌||◌, some, List, ltb,
  ◌==◌, Bool-cases, length, get_or, set, length-set, get_or-set_self, get_or-set_ne, arith, inl,
  inr, ◌∙◌, subst,
}
use native.Mathlib.Decide.{dec_lt}
use chestnut.Slab.{SlabClass, IsSlab}
use chestnut.Slab.FreeStack.{
  FreeStack, stack_size, u8, fill, init, alloc, free, is_empty, is_full, read, write,
}
use chestnut.Slab.FreeStack.Count.{
  holds, Proper, holds-set, Proper-set, count-full, count_all, count-holds,
}

-- What the operations keep, for a slab of `total` objects.
record IsValid (total : ℕ) (s : FreeStack) : Type 0 where
  size : length s.free_stack ≡ stack_size
  total_lem : s.nr_total ≡ total
  free_le : s.nr_free ≤ total
  proper : Proper total s.free_stack s.nr_free

-- The first `n` entries count up from 0.
abbrev CountsUp : List ℕ → ℕ → Type 0
CountsUp xs n = (i : ℕ) → i < n → get_or xs i 0 ≡ i

length-fill : (left i : ℕ) (xs : List ℕ) → length (fill left i xs) ≡ length xs
unfolding fill
length-fill zero i xs = refl
length-fill (suc left) i xs = length-fill left (i + 1) (set xs i (u8 i)) ∙ length-set xs i (u8 i)

fill-CountsUp :
    (left i : ℕ) (xs : List ℕ)
    → i + left ≤ length xs
    → i + left ≤ 256
    → CountsUp xs i
    → CountsUp (fill left i xs) (i + left)
unfolding fill
fill-CountsUp zero i xs fits word up = λ j lt. up j (omega arith)
fill-CountsUp (suc left) i xs fits word up = λ j lt.
    fill-CountsUp left (i + 1) (set xs i (u8 i)) (omega (arith, length-set xs i (u8 i)))
      (omega arith) next j (omega arith)
  where
    next : CountsUp (set xs i (u8 i)) (i + 1)
    next j lt = elim (dec_lt j i) [
      | yes early ↦ get_or-set_ne xs i j (u8 i) 0 (omega arith) ∙ up j early
      | no last ↦
          let here : j ≡ i = omega arith in
          rw (here, get_or-set_self xs i (u8 i) 0 (omega arith)) (omega arith)
    ]

holds-CountsUp : (xs : List ℕ) (n v : ℕ) → CountsUp xs n → holds xs n v ≡ ltb v n
unfolding holds
holds-CountsUp xs zero v up = ground arith
holds-CountsUp xs (suc n) v up =
    ground (arith, up n, holds-CountsUp xs n v (λ i lt. up i (omega arith)))

Proper-CountsUp : (total : ℕ) (xs : List ℕ) (n : ℕ) → n ≤ total → CountsUp xs n → Proper total xs n
Proper-CountsUp total xs zero le up = tt
Proper-CountsUp total xs (suc n) le up = (
  omega (arith, up n (omega arith)),
  ground (arith, up n, holds-CountsUp xs n n (λ i lt. up i (omega arith))),
  Proper-CountsUp total xs n (omega arith) (λ i lt. up i (omega arith)),
)

module _ (total : ℕ) (pos : 0 < total) (fits : total ≤ stack_size) where
  init-IsValid :
      (s : FreeStack)
      → length s.free_stack ≡ stack_size
      → IsValid total (init total s)
        × ((i : ℕ) → i < total → holds (init total s).free_stack (init total s).nr_free i ≡ true)
  unfolding init
  init-IsValid s size =
      let up =
        fill-CountsUp total 0 s.free_stack (omega arith) (omega arith)
          (λ i lt. absurd (omega arith)) in
      let all : u8 total ≡ total = omega arith in
      (
        record {
          size = length-fill total 0 s.free_stack ∙ size;
          total_lem = all;
          free_le = omega arith;
          proper =
              rw all (Proper-CountsUp total _ total (omega arith) (λ i lt. up i (omega arith)));
        },
        λ i lt.
            rw (all, holds-CountsUp (fill total 0 s.free_stack) total i (λ j h. up j (omega arith)))
              (ground arith),
      )

  -- An allocation takes the top entry.
  abbrev Allocated : FreeStack → ℕ → FreeStack → Type 0
  Allocated s i s' =
      (alloc s ≡ some (i, s'))
      × IsValid total s'
      × (i < total)
      × (holds s.free_stack s.nr_free i ≡ true)
      × ((j : ℕ)
          → j < total
          → holds s'.free_stack s'.nr_free j ≡ (holds s.free_stack s.nr_free j && not (i == j)))

  alloc_top :
      (s : FreeStack) (k : ℕ)
      → s.nr_free ≡ suc k
      → IsValid total s
      → Allocated s (get_or s.free_stack k 0) (record s { nr_free = k })
  unfolding alloc holds read
  alloc_top s k e v =
      let p : Proper total s.free_stack (suc k) = subst (Proper total s.free_stack) e v.proper in
      let top : u8 (s.nr_free + 255) ≡ k = omega arith in
      (
        ground arith,
        record { size = v.size; total_lem = v.total_lem; free_le = omega arith; proper = p.2 },
        p.0,
        rw e (ground arith),
        λ j lt. rw e (ground (arith, p.1)),
      )

  alloc-IsValid :
      (s : FreeStack)
      → IsValid total s
      → is_full s ≡ false
      → (i : ℕ) × (s' : FreeStack) × Allocated s i s'
  unfolding is_full
  alloc-IsValid s v more =
      let a = alloc_top s (s.nr_free - 1) (ground arith) v in
      (get_or s.free_stack (s.nr_free - 1) 0, record s { nr_free = s.nr_free - 1 }, a)

  -- The stack is not at its limit while an object is out.
  room :
      (s : FreeStack) (i : ℕ)
      → IsValid total s
      → i < total
      → holds s.free_stack s.nr_free i ≡ false
      → s.nr_free < total
  room s i v lt out = elim (dec_lt s.nr_free total) [
    | yes h ↦ h
    | no h ↦
        let e = count-holds total s.free_stack s.nr_free v.proper in
        let full = count-full (holds s.free_stack s.nr_free) total i in
        absurd (ground (arith, full))
  ]

  free-IsValid :
      (i : ℕ) (s : FreeStack)
      → IsValid total s
      → i < total
      → holds s.free_stack s.nr_free i ≡ false
      → (s' : FreeStack) × (free i s ≡ some s')
        × IsValid total s'
        × ((j : ℕ)
            → j < total
            → holds s'.free_stack s'.nr_free j ≡ ((i == j) || holds s.free_stack s.nr_free j))
  unfolding free write holds
  free-IsValid i s v lt out =
      let below = room s i v lt out in
      let small : u8 i ≡ i = omega arith in
      let n' : u8 (s.nr_free + 1) ≡ suc s.nr_free = omega arith in
      let here = get_or-set_self s.free_stack s.nr_free i 0 (omega arith) in
      (
        record s { free_stack = set s.free_stack s.nr_free i; nr_free = suc s.nr_free },
        ground arith,
        record {
          size = length-set s.free_stack s.nr_free i ∙ v.size;
          total_lem = v.total_lem;
          free_le = omega arith;
          proper = (
            omega (arith, here),
            rw (here, holds-set s.free_stack s.nr_free s.nr_free i i (omega arith)) out,
            Proper-set total s.free_stack s.nr_free s.nr_free i (omega arith) v.proper,
          );
        },
        λ j h. rw (here, holds-set s.free_stack s.nr_free s.nr_free i j (omega arith)) refl,
      )

  is_full_iff :
      (s : FreeStack)
      → IsValid total s
      → (is_full s ≡ true) ↔ ((i : ℕ) → i < total → holds s.free_stack s.nr_free i ≡ false)
  unfolding is_full holds
  is_full_iff s v = (none_held, back)
    where
      none_held :
          (s.nr_free == 0) ≡ true → (i : ℕ) → i < total → holds s.free_stack s.nr_free i ≡ false
      none_held e i lt = let z : s.nr_free ≡ 0 = ground arith in rw (z, holds)

      back :
          ((i : ℕ) → i < total → holds s.free_stack s.nr_free i ≡ false) → (s.nr_free == 0) ≡ true
      back none_in = elim (Bool-cases (s.nr_free == 0)) [
        | inl none_left ↦ none_left
        | inr more ↦ let (i, s', a) = alloc-IsValid s v more in cc (none_in i a.2, a.3)
      ]

  is_empty_iff :
      (s : FreeStack)
      → IsValid total s
      → (is_empty s ≡ true) ↔ ((i : ℕ) → i < total → holds s.free_stack s.nr_free i ≡ true)
  unfolding is_empty
  is_empty_iff s v =
      let e = count-holds total s.free_stack s.nr_free v.proper in
      (
        λ full i lt. count-full (holds s.free_stack s.nr_free) total i (ground arith) lt,
        λ all. ground (arith, count_all (holds s.free_stack s.nr_free) total all),
      )

-- `FreeListSlab`, initialised for `total` objects.
abbrev pub free_stack_class : ℕ → SlabClass
free_stack_class total = record {
  State = FreeStack;
  init = init total;
  alloc = alloc;
  free = free;
  is_empty = is_empty;
  is_full = is_full;
}

-- A slab before `Init`: only the size of its array is known.
abbrev pub HasStack : FreeStack → Type 0
HasStack s = length s.free_stack ≡ stack_size

-- `FreeListSlab` keeps the interface of a slab, for any number of objects that its stack can
-- hold: after `Init` that many slots are free, `Alloc` takes a free slot, `Free` gives back one in
-- use, and `is_full` and `is_empty` say whether no slot and whether every slot is free.
pub free_stack-IsSlab :
    (total : ℕ)
    → 0 < total
    → total ≤ stack_size
    → IsSlab (free_stack_class total) (λ i. i < total) HasStack
free_stack-IsSlab total pos fits = record {
  Valid = IsValid total;
  slot_free = λ s. holds s.free_stack s.nr_free;
  init_lem = init-IsValid total pos fits;
  alloc_lem = alloc-IsValid total pos fits;
  free_lem = free-IsValid total pos fits;
  is_full_lem = is_full_iff total pos fits;
  is_empty_lem = is_empty_iff total pos fits;
}
