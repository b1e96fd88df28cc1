-- ===== src/Slab/Meta/Laws.antt =====
-- `MetaSlab` keeps the interface of a slab, with the blocks 1 to 63 of its page.
use chestnut.Base.{
  ℕ, suc, ◌+◌, ◌-◌, ◌%◌, ◌^◌, ◌<◌, ◌≡◌, ◌↔◌, ◌∙◌, true, false, not, ◌&&◌, ◌||◌, some, List, [], ◌∷◌,
  map, ◌==◌, has, arith, subst, sym,
}
use chestnut.Links.{insert_after, delete}
use chestnut.Links.Insert.{insert_after-IsRing}
use chestnut.Links.Delete.{delete-IsRing}
use chestnut.Slab.{SlabClass, IsSlab}
use chestnut.Slab.FreeStack.Count.{count-full, count_all}
use chestnut.Slab.Meta.{
  MetaSlab, free_slab, block, is_empty, is_full, start, block_index, in_page, alloc, free,
}
use chestnut.Slab.Meta.Listed.{
  IsBlock, block_free, IsListed, has-block, Distinct-block, free_slab-apart, count-has, length-le,
  block_free_lem, IsValid, start-IsValid,
}

block_index-block : (mem i : ℕ) → i < 64 → block_index mem (block mem i) ≡ i
unfolding block_index block
block_index-block mem i lt = ground arith

-- The first block of the list is handed out.
alloc-IsListed :
    (s : MetaSlab) (x : ℕ) (xs : List ℕ)
    → IsListed s (x ∷ xs)
    → (s' : MetaSlab) × (alloc s ≡ some (x, s')) × IsListed s' xs
unfolding alloc in_page
alloc-IsListed s x xs v =
    let (pos, lt) = v.blocks x (ground arith) in
    let first : s.links.next (free_slab s.mem) ≡ block s.mem x = v.ring.chain.0 in
    let idx = block_index-block s.mem x lt in
    let s' : MetaSlab = record s {
      links = delete (block s.mem x) s.links;
      nr_free_slab = s.nr_free_slab - 1;
    } in
    (
      s',
      rw (first, idx) (ground (arith, v.length_lem)),
      record {
        ring = delete-IsRing s.links (block s.mem x) (free_slab s.mem) [] _ v.ring;
        blocks = λ i h. v.blocks i (ground arith);
        length_lem = omega (arith, v.length_lem);
      },
    )

alloc-IsValid :
    (s : MetaSlab)
    → IsValid s
    → is_full s ≡ false
    → (i : ℕ) × (s' : MetaSlab) × ((alloc s ≡ some (i, s'))
        × IsValid s'
        × IsBlock i
        × (block_free s i ≡ true)
        × ((j : ℕ) → IsBlock j → block_free s' j ≡ (block_free s j && not (i == j))))
unfolding IsValid is_full
alloc-IsValid s ([], v) more = absurd (ground (arith, v.length_lem))
alloc-IsValid s (x ∷ xs, v) more =
    let (s', e, v') = alloc-IsListed s x xs v in
    let new = (Distinct-block s.mem (x ∷ xs) v.ring.distinct.1).0 in
    (
      x,
      s',
      (
        e,
        (xs, v'),
        v.blocks x (ground arith),
        block_free_lem s (x ∷ xs) x v ∙ ground arith,
        λ j h. ground (arith, block_free_lem s' xs j v', block_free_lem s (x ∷ xs) j v, new),
      ),
    )

free-IsValid :
    (i : ℕ) (s : MetaSlab)
    → IsValid s
    → IsBlock i
    → block_free s i ≡ false
    → (s' : MetaSlab) × (free i s ≡ some s')
      × IsValid s'
      × ((j : ℕ) → IsBlock j → block_free s' j ≡ ((i == j) || block_free s j))
unfolding IsValid free in_page
free-IsValid i s (idxs, v) (pos, lt) out =
    let new : has i idxs ≡ false = sym (block_free_lem s idxs i v) ∙ out in
    let apart : has (block s.mem i) (free_slab s.mem ∷ map (block s.mem) idxs) ≡ false =
      ground (arith, has-block s.mem i idxs, free_slab-apart s.mem (i ∷ [])) in
    let le = length-le idxs (Distinct-block s.mem idxs v.ring.distinct.1) v.blocks in
    let s' : MetaSlab = record s {
      links = insert_after (block s.mem i) (free_slab s.mem) s.links;
      nr_free_slab = (s.nr_free_slab + 1) % 2 ^ 8;
    } in
    let v' : IsListed s' (i ∷ idxs) = record {
      ring = insert_after-IsRing s.links (free_slab s.mem) (block s.mem i) _ v.ring apart;
      blocks = λ j h. ground (arith, v.blocks j);
      length_lem = omega (arith, v.length_lem);
    } in
    (
      s',
      ground arith,
      (i ∷ idxs, v'),
      λ j h. ground (arith, block_free_lem s' (i ∷ idxs) j v', block_free_lem s idxs j v),
    )

is_full_iff :
    (s : MetaSlab) → IsValid s → (is_full s ≡ true) ↔ ((i : ℕ) → IsBlock i → block_free s i ≡ false)
unfolding IsValid is_full
is_full_iff s ([], v) = (λ e i h. block_free_lem s [] i v, λ h. ground (arith, v.length_lem))
is_full_iff s (x ∷ xs, v) = (
  λ e. absurd (ground (arith, v.length_lem)),
  λ h. absurd (ground (arith, block_free_lem s (x ∷ xs) x v, h x (v.blocks x (ground arith)))),
)

is_empty_iff :
    (s : MetaSlab) → IsValid s → (is_empty s ≡ true) ↔ ((i : ℕ) → IsBlock i → block_free s i ≡ true)
unfolding IsValid is_empty
is_empty_iff s (idxs, v) =
    let n = count-has idxs (Distinct-block s.mem idxs v.ring.distinct.1) v.blocks in
    let listed = λ (i : ℕ). has (suc i) idxs in
    (
      λ e i h.
          let here : suc (i - 1) ≡ i = omega arith in
          block_free_lem s idxs i v
          ∙ subst (λ k. has k idxs ≡ true) here
              (count-full listed 63 (i - 1) (ground (arith, v.length_lem)) (omega arith)),
      λ all. ground (
        arith,
        v.length_lem,
        count_all listed 63 (λ i lt.
            sym (block_free_lem s idxs (suc i) v) ∙ all (suc i) (omega arith, omega arith)),
      ),
    )

abbrev pub meta_slab_class : SlabClass
meta_slab_class = record {
  State = MetaSlab;
  init = start;
  alloc = alloc;
  free = free;
  is_empty = is_empty;
  is_full = is_full;
}

-- `MetaSlab` keeps the interface of a slab, with the blocks 1 to 63 of its page as its slots.
pub meta_slab-IsSlab : IsSlab meta_slab_class IsBlock (λ s. Unit {0})
meta_slab-IsSlab = record {
  Valid = IsValid;
  slot_free = block_free;
  init_lem = λ s raw. start-IsValid s;
  alloc_lem = alloc-IsValid;
  free_lem = free-IsValid;
  is_full_lem = is_full_iff;
  is_empty_lem = is_empty_iff;
}
