-- ===== src/Links/Delete.antt =====
-- `ListNode::Delete` against the list that a ring stands for.
use chestnut.Base.{ℕ, ◌≡◌, ◌≢◌, refl, List, [], ◌∷◌, ◌++◌, arith, Distinct, has-append, store}
use mathlib.Core.List.{append-nil}
use chestnut.Links.{Links, set_next, set_prev, delete}
use chestnut.Links.Ring.{
  Chain, IsRing, Disjoint, Chain-frame, Chain-append, Chain-split, Chain-retarget, prev-Chain,
  next-Chain, ne_of_has, Distinct-split, Distinct-disjoint, Distinct-prefix, Distinct-suffix,
  IsRing-frame,
}

module _ (s : Links) (n : ℕ) where
  -- The two writes of `Delete`, for a node that is not its own predecessor.
  next-delete : (x : ℕ) → (delete n s).next x ≡ store s.next (s.prev n) (s.next n) x
  unfolding delete set_next set_prev
  next-delete x = refl

  prev-delete : (x : ℕ) → s.prev n ≢ n → (delete n s).prev x ≡ store s.prev (s.next n) (s.prev n) x
  unfolding delete set_next set_prev
  prev-delete x ne = ground arith

  -- The two segments on either side of the node are joined.
  delete-Chain :
      (h : ℕ) (xs ys : List ℕ)
      → Distinct (h ∷ xs ++ n ∷ ys)
      → Chain s h xs n
      → Chain s n ys h
      → Chain (delete n s) h (xs ++ ys) h
  delete-Chain h xs [] d c e =
      let dh = Distinct-prefix (h ∷ xs) _ d in
      let parts = Distinct-split (h ∷ xs) n [] d in
      let ne = ne_of_has (s.prev n) n (h ∷ xs) (prev-Chain s h xs n c) parts.1 in
      rw append-nil (
        Chain-retarget s (delete n s) h xs n h dh (ground (arith, next-delete (s.prev n)))
          (ground (arith, prev-delete h ne)) (λ z i far. ground (arith, next-delete z))
          (λ z i. ground (arith, prev-delete z ne, dh)) c)
  delete-Chain h xs (y ∷ ys) d c e =
      let dh = Distinct-prefix (h ∷ xs) _ d in
      let parts = Distinct-split (h ∷ xs) n (y ∷ ys) d in
      let ne = ne_of_has (s.prev n) n (h ∷ xs) (prev-Chain s h xs n c) parts.1 in
      let tail = Distinct-suffix (h ∷ xs) (n ∷ y ∷ ys) d in
      let apart = λ (z : ℕ). Distinct-disjoint (h ∷ xs) (n ∷ y ∷ ys) z d in
      Chain-append (delete n s) h xs y ys h
        (Chain-retarget s (delete n s) h xs n y dh (ground (arith, next-delete (s.prev n)))
          (ground (arith, prev-delete y ne)) (λ z i far. ground (arith, next-delete z))
          (λ z i. ground (arith, prev-delete z ne, apart z)) c)
        (Chain-frame s (delete n s) y ys h
          (λ z i. ground (arith, next-delete z, apart (s.prev n), prev-Chain s h xs n c))
          (λ z i. ground (arith, prev-delete z ne, has-append z ys (h ∷ []), tail, apart h)) e.2)

  -- Deleting a node takes it out of the list, wherever it stands.
  pub delete-IsRing :
      (h : ℕ) (xs ys : List ℕ) → IsRing s h (xs ++ n ∷ ys) → IsRing (delete n s) h (xs ++ ys)
  delete-IsRing h xs ys r =
      let parts = Chain-split s h xs n ys h r.chain in
      record {
        chain = delete-Chain h xs ys r.distinct parts.0 parts.1;
        distinct = (Distinct-split (h ∷ xs) n ys r.distinct).0;
      }

  -- A ring of other nodes is left alone.
  pub delete-frame :
      (h : ℕ) (xs ys : List ℕ) (k : ℕ) (zs : List ℕ)
      → IsRing s h (xs ++ n ∷ ys)
      → Disjoint (h ∷ xs ++ n ∷ ys) (k ∷ zs)
      → IsRing s k zs
      → IsRing (delete n s) k zs
  delete-frame h xs ys k zs r apart o =
      let parts = Chain-split s h xs n ys h r.chain in
      let before = prev-Chain s h xs n parts.0 in
      let after = next-Chain s n ys h parts.1 in
      let ne = ne_of_has (s.prev n) n (h ∷ xs) before (Distinct-split (h ∷ xs) n ys r.distinct).1 in
      let e = has-append (s.prev n) xs (n ∷ ys) in
      let f = has-append (s.next n) xs (n ∷ ys) in
      let g = has-append (s.next n) ys (h ∷ []) in
      IsRing-frame s (delete n s) k zs
        (λ z i. ground (arith, next-delete z, apart (s.prev n), before, e))
        (λ z i. ground (arith, prev-delete z ne, apart (s.next n), after, f, g)) o
