-- ===== src/Pages/Return.antt =====
-- `FreePages` on the free list: a run of pages joins it, and gives back what `AllocPages` took.
use chestnut.Base.{
  ℕ, zero, suc, ◌+◌, ◌≤◌, ◌<◌, ◌≡◌, false, List, [], ◌∷◌, ◌++◌, inl, inr, arith, ◌==◌, Bool-cases,
  has,
}
use mathlib.Core.List.{reverse, reverse-cons, append_assoc}
use chestnut.Pages.{MemPages, page_head, give_run, free_pages, free_page}
use chestnut.Pages.FreeList.{FreeList, give-FreeList}

-- The pages of a run, first to last.
unfoldable pub run_of : ℕ → ℕ → List ℕ
run_of pg zero = []
run_of pg (suc n) = pg ∷ run_of (pg + 1) n

-- No page of the `count` pages from `pg` on is in the list.
abbrev pub NoneOf : ℕ → ℕ → List ℕ → Type 0
NoneOf pg count xs = (p : ℕ) → pg ≤ p → p < pg + count → has p xs ≡ false

give_run-FreeList :
    (count pg : ℕ) (m : MemPages) (xs : List ℕ)
    → page_head < pg
    → FreeList m xs
    → NoneOf pg count xs
    → FreeList (give_run count pg m) (reverse (run_of pg count) ++ xs)
unfolding give_run run_of
give_run-FreeList zero pg m xs lt f apart = f
give_run-FreeList (suc count) pg m xs lt f apart =
    rw (reverse-cons pg (run_of (pg + 1) count), append_assoc)
      (give_run-FreeList count (pg + 1) _ (pg ∷ xs) (omega arith)
        (give-FreeList m pg xs f (ground (arith, apart pg)))
        (λ p ge below. ground (arith, apart p)))

-- `FreePages` puts the pages of a run, none of them free, on the free list, the last one first.
pub free_pages-FreeList :
    (n pg : ℕ) (m : MemPages) (xs : List ℕ)
    → page_head < pg
    → FreeList m xs
    → NoneOf pg n xs
    → FreeList (free_pages pg n m) (reverse (run_of pg n) ++ xs)
unfolding free_pages free_page give_run run_of
free_pages-FreeList n pg m xs lt f apart = elim (Bool-cases (n == 1)) [
  | inl one ↦
      let e : n ≡ 1 = ground arith in
      rw (one, e) (give-FreeList m pg xs f (ground (arith, apart pg)))
  | inr more ↦ rw more (give_run-FreeList n pg m xs lt f apart)
]
