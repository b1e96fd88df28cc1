-- ===== src/Pages/FreeList.antt =====
-- The free list of the page allocator: what it stands for, and `AllocPage` and `FreePage` on it.
use mathlib.Core.Path.{fun_ext}
use chestnut.Base.{
  ℕ, ◌<◌, ◌≡◌, ◌≢◌, ap, true, false, none, some, List, [], ◌∷◌, ◌++◌, arith, ◌==◌, has, has-append,
}
use chestnut.Links.{Links, set_next, set_prev, delete, insert_after}
use chestnut.Links.Ring.{IsRing, prev-Chain, next-Chain, Distinct-split}
use chestnut.Links.Insert.{insert_after-IsRing}
use chestnut.Links.Delete.{delete-IsRing}
use chestnut.Pages.{
  MemPages, page_head, page_at, mark, pop_front, push_front, alloc_page, free_page,
}

-- The free pages are the nodes of the list behind `page_head`, and are marked so.
pub record FreeList (m : MemPages) (xs : List ℕ) : Type 0 where
  pub ring : IsRing m.links page_head xs
  pub free : (i : ℕ) → i < m.nr_page_structs → m.is_free (page_at i) ≡ has (page_at i) xs
  pub listed : (i : ℕ) → i < m.nr_page_structs → m.is_in_list (page_at i) ≡ has (page_at i) xs

-- On a list that is not empty, dropping the first page is deleting its node.
pop_front-eq :
    (s : Links) (p : ℕ) (xs : List ℕ) → IsRing s page_head (p ∷ xs) → pop_front s ≡ delete p s
unfolding pop_front delete set_next set_prev
pop_front-eq s p xs r = λ i. record { prev = e i; next = f i }
  where
    e : (pop_front s).prev ≡ (delete p s).prev
    e = fun_ext λ x. ground (arith, r.chain, r.distinct)

    f : (pop_front s).next ≡ (delete p s).next
    f = fun_ext λ x. ground (arith, r.chain, r.distinct)

pub pop_front-IsRing :
    (s : Links) (p : ℕ) (xs : List ℕ)
    → IsRing s page_head (p ∷ xs)
    → IsRing (pop_front s) page_head xs
pop_front-IsRing s p xs r = rw (pop_front-eq s p xs r) (delete-IsRing s p page_head [] xs r)

-- The four writes of `FreePage` insert the page behind the head.
push_front-eq :
    (s : Links) (p : ℕ)
    → p ≢ page_head
    → s.next page_head ≢ p
    → push_front p s ≡ insert_after p page_head s
unfolding push_front insert_after set_next set_prev
push_front-eq s p ne far = λ i. record { prev = e i; next = f i }
  where
    e : (push_front p s).prev ≡ (insert_after p page_head s).prev
    e = fun_ext λ x. ground arith

    f : (push_front p s).next ≡ (insert_after p page_head s).next
    f = fun_ext λ x. ground arith

-- A page that leaves the list by `Delete`, from wherever it stands.
pub take-FreeList :
    (m : MemPages) (before : List ℕ) (p : ℕ) (after : List ℕ)
    → FreeList m (before ++ p ∷ after)
    → FreeList (mark p false (record m { links = delete p m.links })) (before ++ after)
unfolding mark
take-FreeList m before p after f = record {
  ring = delete-IsRing m.links p page_head before after f.ring;
  free = λ i h. ground (
    arith,
    f.free i,
    has-append (page_at i) before (p ∷ after),
    has-append (page_at i) before after,
    apart,
  );
  listed = λ i h. ground (
    arith,
    f.listed i,
    has-append (page_at i) before (p ∷ after),
    has-append (page_at i) before after,
    apart,
  );
}
  where
    apart : (has p before ≡ false) × (has p after ≡ false)
    apart = let parts = Distinct-split before p after f.ring.distinct.1 in (parts.1, parts.2)

-- A page that joins the list at its front.
pub give-FreeList :
    (m : MemPages) (p : ℕ) (xs : List ℕ)
    → FreeList m xs
    → has p (page_head ∷ xs) ≡ false
    → FreeList (mark p true (record m { links = push_front p m.links })) (p ∷ xs)
unfolding mark
give-FreeList m p xs f new = record {
  ring =
      rw (push_front-eq m.links p (ground arith) far)
        (insert_after-IsRing m.links page_head p xs f.ring new);
  free = λ i h. ground (arith, f.free i);
  listed = λ i h. ground (arith, f.listed i);
}
  where
    far : m.links.next page_head ≢ p
    far = ground (
      arith,
      next-Chain m.links page_head xs page_head f.ring.chain,
      has-append (m.links.next page_head) xs (page_head ∷ []),
    )

-- The outcomes of `AllocPage`, by the pages of the free list.
abbrev pub Allocates : MemPages → List ℕ → Type 0
Allocates m [] = alloc_page m ≡ (none, m)
Allocates m (p ∷ []) = alloc_page m ≡ (none, m)
Allocates m (p ∷ q ∷ xs) = ((alloc_page m).0 ≡ some p) × FreeList (alloc_page m).1 (q ∷ xs)

-- Where the free list has two pages or more, `AllocPage` gives the first, and the free list is left
-- with the others. Where it has none, and also where it has just one, `AllocPage` refuses and
-- changes nothing.
pub alloc_page-Allocates : (m : MemPages) (xs : List ℕ) → FreeList m xs → Allocates m xs
unfolding alloc_page
alloc_page-Allocates m [] f = ground (arith, f.ring.chain)
alloc_page-Allocates m (p ∷ []) f = ground (arith, f.ring.chain)
alloc_page-Allocates m (p ∷ q ∷ xs) f = (
  rw test (ap some f.ring.chain.0),
  rw (test, f.ring.chain.0, pop_front-eq m.links p (q ∷ xs) f.ring)
      (take-FreeList m [] p (q ∷ xs) f),
)
  where
    test : (m.links.next page_head == m.links.prev page_head) ≡ false
    test = ground (arith, f.ring, prev-Chain m.links q xs page_head f.ring.chain.2.2)

-- `FreePage` puts a page that is not free at the front of the free list.
pub free_page-FreeList :
    (m : MemPages) (i : ℕ) (xs : List ℕ)
    → FreeList m xs
    → has (page_at i) xs ≡ false
    → FreeList (free_page (page_at i) m) (page_at i ∷ xs)
unfolding free_page
free_page-FreeList m i xs f new = give-FreeList m (page_at i) xs f (ground arith)
