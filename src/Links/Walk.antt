-- ===== src/Links/Walk.antt =====
-- Reading the nodes of a ring out of the memory, by following `next` from the head.
use chestnut.Base.{
  ℕ, zero, suc, ◌≤◌, ◌≡◌, refl, false, List, [], ◌∷◌, ◌==◌, if◌then◌else◌, length, has, arith,
}
use chestnut.Links.{Links}
use chestnut.Links.Ring.{Chain, IsRing}

-- The nodes from `x` on, up to the head `h`, of at most `fuel` nodes.
unfoldable pub nodes_from : ℕ → Links → ℕ → ℕ → List ℕ
nodes_from zero s h x = []
nodes_from (suc fuel) s h x =
    let others = nodes_from fuel s h (s.next x) in if h == x then [] else x ∷ others

nodes_from-Chain :
    (fuel : ℕ) (s : Links) (h a : ℕ) (xs : List ℕ)
    → length xs ≤ fuel
    → has h xs ≡ false
    → Chain s a xs h
    → nodes_from fuel s h (s.next a) ≡ xs
unfolding nodes_from
nodes_from-Chain zero s h a [] le out c = refl
nodes_from-Chain (suc fuel) s h a [] le out c = ground (arith, c.0)
nodes_from-Chain zero s h a (x ∷ xs) le out c = absurd (omega arith)
nodes_from-Chain (suc fuel) s h a (x ∷ xs) le out c =
    let others = nodes_from-Chain fuel s h x xs (omega arith) (ground arith) c.2 in
    rw c.0 (ground (arith, others))

-- With fuel for all of them, the nodes of a ring are read out in order.
pub nodes-IsRing :
    (fuel : ℕ) (s : Links) (h : ℕ) (xs : List ℕ)
    → length xs ≤ fuel
    → IsRing s h xs
    → nodes_from fuel s h (s.next h) ≡ xs
nodes-IsRing fuel s h xs le r = nodes_from-Chain fuel s h h xs le r.distinct.0 r.chain
