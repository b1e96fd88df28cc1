-- ===== src/Slab/Meta/Listed.antt =====
-- The free blocks of a `MetaSlab`: what its list stands for, and the list that `Init` makes.
use chestnut.Base.{
  ℕ, zero, suc, ◌+◌, ◌-◌, ◌≤◌, ◌<◌, ◌≡◌, refl, ap, ◌∙◌, Bool, true, false, ◌&&◌, ◌||◌, List, [],
  ◌∷◌, map, ltb, leb, ◌==◌, length, has, Distinct, arith, sym,
}
use chestnut.Links.{Links, init_head}
use chestnut.Links.Ring.{IsRing}
use chestnut.Links.Insert.{insert_after-IsRing, init_head-IsRing}
use chestnut.Links.Walk.{nodes_from, nodes-IsRing}
use chestnut.Slab.FreeStack.Count.{count, count-le, count_add, count_none, count_ext}
use chestnut.Slab.Meta.{MetaSlab, free_slab, block, link_blocks, start}

-- The blocks that a slab can hand out.
abbrev pub IsBlock : ℕ → Type 0
IsBlock i = (0 < i) × (i < 64)

abbrev nodes : MetaSlab → List ℕ
nodes s = nodes_from 63 s.links (free_slab s.mem) (s.links.next (free_slab s.mem))

unfoldable pub block_free : MetaSlab → ℕ → Bool
block_free s i = has (block s.mem i) (nodes s)

-- The free blocks are `idxs`, in the order of the list.
pub record IsListed (s : MetaSlab) (idxs : List ℕ) : Type 0 where
  pub ring : IsRing s.links (free_slab s.mem) (map (block s.mem) idxs)
  pub blocks : (i : ℕ) → has i idxs ≡ true → IsBlock i
  pub length_lem : s.nr_free_slab ≡ length idxs

length-map : (f : ℕ → ℕ) (xs : List ℕ) → length (map f xs) ≡ length xs
length-map f [] = refl
length-map f (x ∷ xs) = ap suc (length-map f xs)

pub has-block : (mem i : ℕ) (idxs : List ℕ) → has (block mem i) (map (block mem) idxs) ≡ has i idxs
unfolding block
has-block mem i [] = refl
has-block mem i (x ∷ xs) = ground (arith, has-block mem i xs)

pub Distinct-block : (mem : ℕ) (idxs : List ℕ) → Distinct (map (block mem) idxs) → Distinct idxs
Distinct-block mem [] d = tt
Distinct-block mem (x ∷ xs) d = (ground (arith, has-block mem x xs, d.0), Distinct-block mem xs d.1)

pub free_slab-apart : (mem : ℕ) (idxs : List ℕ) → has (free_slab mem) (map (block mem) idxs) ≡ false
unfolding block free_slab
free_slab-apart mem [] = refl
free_slab-apart mem (x ∷ xs) = ground (arith, free_slab-apart mem xs)

-- As many blocks are free as the list is long.
pub count-has :
    (idxs : List ℕ)
    → Distinct idxs
    → ((i : ℕ) → has i idxs ≡ true → IsBlock i)
    → count (λ i. has (suc i) idxs) 63 ≡ length idxs
count-has [] d within = count_none 63
count-has (x ∷ xs) d within =
    let (pos, lt) = within x (ground arith) in
    let here : suc (x - 1) ≡ x = omega arith in
    let others = count-has xs d.1 (λ i h. within i (ground arith)) in
    count_ext (λ i. has (suc i) (x ∷ xs)) (λ i. ((x - 1) == i) || has (suc i) xs) 63
      (λ i h. ground arith)
    ∙ count_add (λ i. has (suc i) xs) 63 (x - 1) (omega arith) (rw here d.0)
    ∙ ap suc others

pub length-le :
    (idxs : List ℕ) → Distinct idxs → ((i : ℕ) → has i idxs ≡ true → IsBlock i) → length idxs ≤ 63
length-le idxs d within =
    omega (arith, count-has idxs d within, count-le (λ i. has (suc i) idxs) 63)

pub block_free_lem :
    (s : MetaSlab) (idxs : List ℕ) (i : ℕ) → IsListed s idxs → block_free s i ≡ has i idxs
unfolding block_free
block_free_lem s idxs i v =
    let le : length (map (block s.mem) idxs) ≤ 63 = omega (
      arith,
      length-map (block s.mem) idxs,
      length-le idxs (Distinct-block s.mem idxs v.ring.distinct.1) v.blocks,
    ) in
    ap (has (block s.mem i)) (nodes-IsRing 63 s.links (free_slab s.mem) _ le v.ring)
    ∙ has-block s.mem i idxs

-- The loop of `Init` puts each block in front of those before it.
stacked : ℕ → ℕ → List ℕ → List ℕ
stacked zero i idxs = idxs
stacked (suc left) i idxs = stacked left (i + 1) (i ∷ idxs)

has-stacked :
    (left i j : ℕ) (idxs : List ℕ)
    → has j (stacked left i idxs) ≡ (has j idxs || (leb i j && ltb j (i + left)))
unfolding stacked
has-stacked zero i j idxs = ground arith
has-stacked (suc left) i j idxs = ground (arith, has-stacked left (i + 1) j (i ∷ idxs))

length-stacked : (left i : ℕ) (idxs : List ℕ) → length (stacked left i idxs) ≡ left + length idxs
unfolding stacked
length-stacked zero i idxs = omega arith
length-stacked (suc left) i idxs = omega (arith, length-stacked left (i + 1) (i ∷ idxs))

block_next : (mem i : ℕ) → block mem i + 64 ≡ block mem (i + 1)
unfolding block
block_next mem i = omega arith

block_first : (mem : ℕ) → mem + 64 ≡ block mem 1
unfolding block
block_first mem = omega arith

link_blocks-IsRing :
    (mem left i : ℕ) (s : Links) (idxs : List ℕ)
    → ((j : ℕ) → i ≤ j → has j idxs ≡ false)
    → IsRing s (free_slab mem) (map (block mem) idxs)
    → IsRing
        (link_blocks left (free_slab mem) (block mem i) s)
        (free_slab mem)
        (map (block mem) (stacked left i idxs))
unfolding link_blocks stacked
link_blocks-IsRing mem zero i s idxs below r = r
link_blocks-IsRing mem (suc left) i s idxs below r =
    let head : (free_slab mem == block mem i) ≡ false =
      ground (arith, free_slab-apart mem (i ∷ [])) in
    let apart : has (block mem i) (free_slab mem ∷ map (block mem) idxs) ≡ false =
      ground (arith, has-block mem i idxs, below i) in
    let r' = insert_after-IsRing s (free_slab mem) (block mem i) _ r apart in
    rw (block_next mem i)
      (link_blocks-IsRing mem left (i + 1) _ (i ∷ idxs) (λ j le. ground (arith, below j)) r')

unfoldable pub IsValid : MetaSlab → Type 0
IsValid s = (idxs : List ℕ) × IsListed s idxs

pub start-IsValid :
    (s : MetaSlab) → IsValid (start s) × ((i : ℕ) → IsBlock i → block_free (start s) i ≡ true)
unfolding start IsValid
start-IsValid s =
    let idxs = stacked 63 1 [] in
    let listed : IsListed (start s) idxs = record {
      ring = rw (block_first s.mem) (
          link_blocks-IsRing s.mem 63 1 (init_head (free_slab s.mem) s.links) [] (λ j le. refl)
            (init_head-IsRing s.links (free_slab s.mem)));
      blocks = λ i h. ground (arith, has-stacked 63 1 i []);
      length_lem = sym (length-stacked 63 1 []);
    } in
    (
      (idxs, listed),
      λ i h. block_free_lem (start s) idxs i listed ∙ ground (arith, has-stacked 63 1 i []),
    )
