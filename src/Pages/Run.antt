-- ===== src/Pages/Run.antt =====
-- `AllocPages` and `FreePages` on the free list: runs of consecutive pages leave and join it.
use chestnut.Base.{
  ℕ, zero, suc, ◌+◌, ◌^◌, ◌≤◌, ◌<◌, ◌≡◌, refl, Bool, true, false, not, ◌&&◌, Option, none, some,
  List, [], ◌∷◌, ◌++◌, inl, inr, arith, ltb, leb, ◌==◌, Bool-cases, Option-cases, ==_ne,
  if◌then◌else◌, has, sym, ap, ◌∙◌, ◌⊎◌,
}
use chestnut.Links.{delete}
use chestnut.Links.Ring.{Distinct-split}
use chestnut.Pages.{MemPages, page_at, mark, take_run, take_found, alloc_page, alloc_pages, scan}
use chestnut.Pages.FreeList.{FreeList, take-FreeList}
use chestnut.Pages.Scan.{RunFree, NoRunBelow, FirstFit, scan-FirstFit}

-- The page `p` is one of the `n` pages from `page_structs[i]` on.
abbrev pub in_run : ℕ → ℕ → ℕ → Bool
in_run i n p = leb (page_at i) p && ltb p (page_at (i + n))

-- A list of pages without those of a run.
unfoldable pub without_run : ℕ → ℕ → List ℕ → List ℕ
without_run i n [] = []
without_run i n (p ∷ xs) = if in_run i n p then without_run i n xs else p ∷ without_run i n xs

pub has-without_run :
    (i n p : ℕ) (xs : List ℕ) → has p (without_run i n xs) ≡ (has p xs && not (in_run i n p))
unfolding without_run
has-without_run i n p [] = refl
has-without_run i n p (x ∷ xs) = ground (arith, has-without_run i n p xs)

without_run_zero : (i : ℕ) (xs : List ℕ) → without_run i 0 xs ≡ xs
unfolding without_run
without_run_zero i [] = refl
without_run_zero i (x ∷ xs) = ground (arith, without_run_zero i xs)

-- A list that holds `p` falls into what is before it and what is behind.
mem_split :
    (p : ℕ) (xs : List ℕ)
    → has p xs ≡ true
    → (before : List ℕ) × (after : List ℕ) × (xs ≡ before ++ p ∷ after)
mem_split p [] h = cc
mem_split p (x ∷ xs) h = elim (Bool-cases (p == x)) [
  | inl here ↦ ([], xs, ground arith)
  | inr there ↦
      let (before, after, e) = mem_split p xs (ground arith) in (x ∷ before, after, ground arith)
]

without_run-append :
    (i n : ℕ) (xs ys : List ℕ)
    → without_run i n (xs ++ ys) ≡ without_run i n xs ++ without_run i n ys
unfolding without_run
without_run-append i n [] ys = refl
without_run-append i n (x ∷ xs) ys = ground (arith, without_run-append i n xs ys)

-- On a list without the first page of a run, the rest of the run is the same.
without_run-miss :
    (i n : ℕ) (xs : List ℕ)
    → has (page_at i) xs ≡ false
    → without_run i (suc n) xs ≡ without_run (i + 1) n xs
unfolding without_run
without_run-miss i n [] h = refl
without_run-miss i n (x ∷ xs) h = ground (arith, without_run-miss i n xs)

without_run-suc :
    (i n : ℕ) (before after : List ℕ)
    → has (page_at i) before ≡ false
    → has (page_at i) after ≡ false
    → without_run i (suc n) (before ++ page_at i ∷ after) ≡ without_run (i + 1) n (before ++ after)
without_run-suc i n before after h k =
    rw
      (
        without_run-append i (suc n) before (page_at i ∷ after),
        without_run-append (i + 1) n before after,
        ← without_run-miss i n before h,
        ← without_run-miss i n after k,
      )
      (ap (◌++◌ (without_run i (suc n) before)) drop)
  where
    drop : without_run i (suc n) (page_at i ∷ after) ≡ without_run i (suc n) after
    drop = unfold without_run in ground arith

-- One round of the loop in `AllocPages`.
abbrev taken : ℕ → MemPages → MemPages
taken i m = mark (page_at i) false (record m { links = delete (page_at i) m.links })

RunFree-taken :
    (i count : ℕ) (m : MemPages)
    → RunFree m.is_free i (suc count)
    → RunFree (taken i m).is_free (i + 1) count
unfolding mark
RunFree-taken i count m run k h =
    let next : m.is_free (page_at (i + suc k)) ≡ true = run (suc k) (omega arith) in
    let same : i + suc k ≡ i + 1 + k = omega arith in
    rw (==_ne (page_at i) (page_at (i + 1 + k)) (omega arith)) (rw same at next)

take_run-FreeList :
    (count i : ℕ) (m : MemPages) (xs : List ℕ)
    → i + count ≤ m.nr_page_structs
    → FreeList m xs
    → RunFree m.is_free i count
    → FreeList (take_run count i m) (without_run i count xs)
unfolding take_run mark
take_run-FreeList zero i m xs fits f run = rw (without_run_zero i xs) f
take_run-FreeList (suc count) i m xs fits f run =
    let first : m.is_free (page_at (i + 0)) ≡ true = run 0 (omega arith) in
    let zeroth : i + 0 ≡ i = omega arith in
    let there : has (page_at i) xs ≡ true = sym (f.free i (omega arith)) ∙ (rw zeroth at first) in
    let (before, after, e) = mem_split (page_at i) xs there in
    let f' : FreeList m (before ++ page_at i ∷ after) = rw e at f in
    let parts = Distinct-split before (page_at i) after f'.ring.distinct.1 in
    rw (e, without_run-suc i count before after parts.1 parts.2)
      (take_run-FreeList count (i + 1) (taken i m) (before ++ after) (omega arith)
        (take-FreeList m before (page_at i) after f') (RunFree-taken i count m run))

-- The two outcomes of `AllocPages`.
abbrev pub AllocatesRun : MemPages → ℕ → List ℕ → Type 0
AllocatesRun m n xs =
    ((alloc_pages n m ≡ (none, m)) × NoRunBelow m.is_free m.nr_page_structs n m.nr_page_structs)
    ⊎ ((s : ℕ) × ((alloc_pages n m).0 ≡ some (page_at s))
        × FirstFit m.is_free m.nr_page_structs n (some s)
        × FreeList (alloc_pages n m).1 (without_run s n xs))

-- For two pages or more, and no more than there are: either `AllocPages` refuses and changes nothing,
-- and the array holds no run of `n` free pages; or it gives the first such run, and the free list
-- is left without the pages of that run.
pub alloc_pages-AllocatesRun :
    (m : MemPages) (n : ℕ) (xs : List ℕ)
    → FreeList m xs
    → 2 ≤ n
    → n ≤ m.nr_page_structs
    → m.nr_page_structs < 2 ^ 63
    → AllocatesRun m n xs
unfolding alloc_pages take_found
alloc_pages-AllocatesRun m n xs f two fits word = rw (==_ne n 1 (omega arith)) (
    go (scan m.is_free m.nr_page_structs n m.nr_page_structs 0 none)
      (scan-FirstFit m.is_free m.nr_page_structs n two fits word))
  where
    go :
        (found : Option ℕ)
        → FirstFit m.is_free m.nr_page_structs n found
        → ((take_found n m found ≡ (none, m))
            × NoRunBelow m.is_free m.nr_page_structs n m.nr_page_structs)
          ⊎ ((s : ℕ) × ((take_found n m found).0 ≡ some (page_at s))
              × FirstFit m.is_free m.nr_page_structs n (some s)
              × FreeList (take_found n m found).1 (without_run s n xs))
    go none fit = inl (refl, fit)
    go (some s) fit = inr (s, refl, fit, take_run-FreeList n s m xs fit.0 f fit.1)

nr-take_run :
    (count i : ℕ) (m : MemPages) → (take_run count i m).nr_page_structs ≡ m.nr_page_structs
unfolding take_run mark
nr-take_run zero i m = refl
nr-take_run (suc count) i m = nr-take_run count (i + 1) (taken i m)

pub nr-alloc_pages :
    (n : ℕ) (m : MemPages) → (alloc_pages n m).1.nr_page_structs ≡ m.nr_page_structs
unfolding alloc_pages take_found alloc_page mark
nr-alloc_pages n m =
    elim (Option-cases (scan m.is_free m.nr_page_structs n m.nr_page_structs 0 none)) [
      | inl e ↦ ground arith
      | inr (s, e) ↦ ground (arith, nr-take_run n s m)
    ]
