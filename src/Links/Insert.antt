-- ===== src/Links/Insert.antt =====
-- `InsertAfter`, `InsertBefore`, `InitHead` and `is_empty` against the list that a ring stands for.
use chestnut.Base.{
  ℕ, ◌≡◌, refl, ◌↔◌, true, false, List, [], ◌∷◌, ◌++◌, arith, has, Distinct, has-append,
}
use chestnut.Links.{Links, set_next, set_prev, insert_after, insert_before, init_head, is_empty}
use chestnut.Links.Ring.{
  Chain, IsRing, Disjoint, Chain-frame, Chain-append, Chain-retarget, prev-Chain, next-Chain,
  Distinct-snoc, IsRing-frame,
}

module _ (s : Links) (h n : ℕ) where
  insert_after-cons :
      (xs : List ℕ)
      → Chain s h xs h
      → Distinct (h ∷ xs)
      → has n (h ∷ xs) ≡ false
      → Chain (insert_after n h s) h (n ∷ xs) h
  unfolding insert_after set_next set_prev
  insert_after-cons [] c d f = ground arith
  insert_after-cons (x ∷ xs) c d f = (
    ground arith,
    ground arith,
    (
      ground arith,
      ground arith,
      Chain-frame s (insert_after n h s) x xs h (λ y i. ground arith)
          (λ y i. ground (arith, has-append y xs (h ∷ []))) c.2,
    ),
  )

  -- Inserting behind the head puts the node first.
  pub insert_after-IsRing :
      (xs : List ℕ)
      → IsRing s h xs
      → has n (h ∷ xs) ≡ false
      → IsRing (insert_after n h s) h (n ∷ xs)
  insert_after-IsRing xs r f = record {
    chain = insert_after-cons xs r.chain r.distinct f;
    distinct = ground (arith, r.distinct);
  }

  -- Inserting before the head puts the node last.
  pub insert_before-IsRing :
      (xs : List ℕ)
      → IsRing s h xs
      → has n (h ∷ xs) ≡ false
      → IsRing (insert_before n h s) h (xs ++ n ∷ [])
  unfolding insert_before set_next set_prev
  insert_before-IsRing xs r f =
      let last = prev-Chain s h xs h r.chain in
      let front : Chain (insert_before n h s) h xs n =
        Chain-retarget s (insert_before n h s) h xs h n r.distinct (ground arith) (ground arith)
          (λ y i ne. ground arith) (λ y i. ground (arith, r.distinct)) r.chain in
      record {
        chain = Chain-append (insert_before n h s) h xs n [] h front (ground arith, ground arith);
        distinct = Distinct-snoc (h ∷ xs) n r.distinct f;
      }

  -- A ring of other nodes is left alone by an insertion behind the head.
  pub insert_after-frame :
      (xs : List ℕ) (k : ℕ) (ys : List ℕ)
      → IsRing s h xs
      → Disjoint (n ∷ h ∷ xs) (k ∷ ys)
      → IsRing s k ys
      → IsRing (insert_after n h s) k ys
  unfolding insert_after set_next set_prev
  insert_after-frame xs k ys r apart o =
      let first = next-Chain s h xs h r.chain in
      let e = has-append (s.next h) xs (h ∷ []) in
      IsRing-frame s (insert_after n h s) k ys (λ y i. ground (arith, apart n, apart h))
        (λ y i. ground (arith, apart n, apart (s.next h))) o

  -- And by one before it.
  pub insert_before-frame :
      (xs : List ℕ) (k : ℕ) (ys : List ℕ)
      → IsRing s h xs
      → Disjoint (n ∷ h ∷ xs) (k ∷ ys)
      → IsRing s k ys
      → IsRing (insert_before n h s) k ys
  unfolding insert_before set_next set_prev
  insert_before-frame xs k ys r apart o =
      let last = prev-Chain s h xs h r.chain in
      IsRing-frame s (insert_before n h s) k ys (λ y i. ground (arith, apart n, apart (s.prev h)))
        (λ y i. ground (arith, apart n, apart h)) o

module _ (s : Links) (h : ℕ) where
  -- `InitHead` makes the empty list.
  pub init_head-IsRing : IsRing (init_head h s) h []
  unfolding init_head set_next set_prev
  init_head-IsRing = record { chain = ground arith; distinct = (refl, tt) }

  pub is_empty_iff : (xs : List ℕ) → IsRing s h xs → (is_empty h s ≡ true) ↔ (xs ≡ [])
  unfolding is_empty
  is_empty_iff [] r = (λ _. refl, λ _. ground (arith, r.chain))
  is_empty_iff (x ∷ xs) r = (λ e. absurd (ground (arith, r.chain, r.distinct)), λ e. cc)
