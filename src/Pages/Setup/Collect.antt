-- ===== src/Pages/Setup/Collect.antt =====
-- `CollectAvailable` builds the free list: the pages of the available regions outside the kernel.
use mathlib.Core.Path.{fun_ext}
use mathlib.Core.List.{append-nil, append_assoc}
use chestnut.Base.{
  ℕ, zero, suc, ◌+◌, ◌*◌, ◌^◌, ◌≤◌, ◌<◌, ◌≡◌, ◌≢◌, refl, ap, sym, subst, ◌∙◌, true, false, Option,
  none, some, List, [], ◌∷◌, ◌++◌, map, inl, inr, arith, ltb, if◌then◌else◌, Bool-cases,
  Option-cases, has, has-append, Distinct, store,
}
use chestnut.Links.{Links, set_next, set_prev, insert_before}
use chestnut.Links.Ring.{IsRing}
use chestnut.Links.Insert.{insert_before-IsRing}
use chestnut.Pages.{MemPages, page_size, page_num, page_head, page_at, page, page_base, mark}
use chestnut.Pages.Setup.{add64, push_back, in_kernel, collect_page, collect_region}

-- The list while it is built: nothing is linked before the first page, and later `last_page` is
-- the end of a ring.
abbrev pub Linked : Links → ℕ → List ℕ → Type 0
Linked s last_page [] = last_page ≡ page_head
Linked s last_page (x ∷ xs) = IsRing s page_head (x ∷ xs) × (s.prev page_head ≡ last_page)

push_back-eq :
    (s : Links) (pg last_page : ℕ)
    → pg ≢ page_head
    → s.prev page_head ≡ last_page
    → push_back pg last_page s ≡ insert_before pg page_head s
unfolding push_back insert_before set_next set_prev
push_back-eq s pg last_page ne end = λ i. record { prev = e i; next = f i }
  where
    e : (push_back pg last_page s).prev ≡ (insert_before pg page_head s).prev
    e = fun_ext λ x. ground arith

    f : (push_back pg last_page s).next ≡ (insert_before pg page_head s).next
    f = fun_ext λ x. ground arith

push_back-Linked :
    (s : Links) (pg last_page : ℕ) (xs : List ℕ)
    → Linked s last_page xs
    → has pg (page_head ∷ xs) ≡ false
    → Linked (push_back pg last_page s) pg (xs ++ pg ∷ [])
unfolding push_back set_next set_prev
push_back-Linked s pg last_page [] l new =
    (record { chain = ground arith; distinct = ground arith }, ground arith)
push_back-Linked s pg last_page (x ∷ xs) l new = (
  rw (push_back-eq s pg last_page (ground arith) l.1)
      (insert_before-IsRing s page_head pg (x ∷ xs) l.0 new),
  ground arith,
)

pub record Built (last_page : ℕ) (m : MemPages) (xs : List ℕ) : Type 0 where
  pub linked : Linked m.links last_page xs
  pub free : (i : ℕ) → i < m.nr_page_structs → m.is_free (page_at i) ≡ has (page_at i) xs
  pub listed : (i : ℕ) → i < m.nr_page_structs → m.is_in_list (page_at i) ≡ has (page_at i) xs

-- The addresses of `rounds` pages from `a` on.
unfoldable pub region_addrs : ℕ → ℕ → List ℕ
region_addrs zero a = []
region_addrs (suc rounds) a = a ∷ region_addrs rounds (a + page_size)

-- All pages of a list of addresses have a `Page` in the array.
abbrev pub InArray : ℕ → List ℕ → Type 0
InArray nr [] = Unit {0}
InArray nr (a ∷ addrs) = (page_num a < nr) × InArray nr addrs

module _ (kstart_pg kend : ℕ) where
  -- The pages of a list of addresses that lie outside the kernel.
  unfoldable pub usable : List ℕ → List ℕ
  usable [] = []
  usable (a ∷ addrs) = if in_kernel kstart_pg kend a then usable addrs else page a ∷ usable addrs

  -- The inner loop over a list of addresses.
  unfoldable pub collect_all : List ℕ → ℕ × MemPages → Option (ℕ × MemPages)
  collect_all [] st = some st
  collect_all (a ∷ addrs) st = elim (collect_page kstart_pg kend a st) [
    | none ↦ none
    | some st' ↦ collect_all addrs st'
  ]

  pub collect_all-append :
      (addrs bs : List ℕ) (st : ℕ × MemPages)
      → collect_all (addrs ++ bs) st
        ≡ elim (collect_all addrs st) [ none ↦ none | some st' ↦ collect_all bs st' ]
  unfolding collect_all
  collect_all-append [] bs st = refl
  collect_all-append (a ∷ addrs) bs st = elim (Option-cases (collect_page kstart_pg kend a st)) [
    | inl e ↦ rw (e, collect_all)
    | inr (st', e) ↦ rw (e, collect_all) (collect_all-append addrs bs st')
  ]

  usable-append : (addrs bs : List ℕ) → usable (addrs ++ bs) ≡ usable addrs ++ usable bs
  unfolding usable
  usable-append [] bs = refl
  usable-append (a ∷ addrs) bs = ground (arith, usable-append addrs bs)

  -- One page.
  collect_page-Built :
      (a last_page : ℕ) (m : MemPages) (xs : List ℕ)
      → Built last_page m xs
      → page_num a < m.nr_page_structs
      → has (page a) xs ≡ false
      → (last' : ℕ) × (m' : MemPages) × (collect_page kstart_pg kend a (last_page, m)
          ≡ some (last', m'))
        × Built last' m' (xs ++ usable (a ∷ []))
        × (m'.nr_page_structs ≡ m.nr_page_structs)
  unfolding collect_page usable mark
  collect_page-Built a last_page m xs b lt new = elim (Bool-cases (in_kernel kstart_pg kend a)) [
    | inl kernel ↦ (
      last_page,
      mark (page a) false noted,
      ground arith,
      rw (kernel, append-nil)
          (record {
            linked = b.linked;
            free = λ i h. ground (arith, b.free i);
            listed = λ i h. ground (arith, b.listed i);
          }),
      refl,
    )
    | inr user ↦ (
      page a,
      mark (page a) true (record noted { links = push_back (page a) last_page m.links }),
      ground arith,
      rw user (record {
        linked = push_back-Linked m.links (page a) last_page xs b.linked (ground arith);
        free = λ i h. ground (arith, b.free i, has-append (page_at i) xs (page a ∷ []));
        listed = λ i h. ground (arith, b.listed i, has-append (page_at i) xs (page a ∷ []));
      }),
      refl,
    )
  ]
    where
      noted : MemPages
      noted = record m { phyaddr = store m.phyaddr (page a) (page_base a) }

  -- All pages of a list of addresses, none of them met before.
  pub collect_all-Built :
      (addrs : List ℕ) (last_page : ℕ) (m : MemPages) (xs : List ℕ)
      → Built last_page m xs
      → InArray m.nr_page_structs addrs
      → Distinct (map page addrs)
      → ((p : ℕ) → has p (map page addrs) ≡ true → has p xs ≡ false)
      → (last' : ℕ) × (m' : MemPages) × (collect_all addrs (last_page, m) ≡ some (last', m'))
        × Built last' m' (xs ++ usable addrs)
  unfolding collect_all usable
  collect_all-Built [] last_page m xs b inside d new = (last_page, m, refl, rw append-nil b)
  collect_all-Built (a ∷ addrs) last_page m xs b inside d new =
      let (l1, m1, e1, b1, nr1) =
        collect_page-Built a last_page m xs b inside.0 (ground (arith, new (page a))) in
      let (l2, m2, e2, b2) =
        collect_all-Built addrs l1 m1 (xs ++ usable (a ∷ [])) b1 (rw nr1 inside.1) d.1
          (λ p i. ground (arith, new p, has-append p xs (usable (a ∷ [])))) in
      (
        l2,
        m2,
        rw (e1, collect_all) e2,
        subst (λ ys. Built l2 m2 ys)
            (append_assoc xs (usable (a ∷ [])) (usable addrs)
              ∙ ap (◌++◌ xs) (sym (usable-append (a ∷ []) addrs)))
            b2,
      )

  -- The inner loop visits the addresses of the region, with the fuel given.
  pub collect_region-collect_all :
      (fuel rounds paddr end : ℕ) (st : ℕ × MemPages)
      → rounds < fuel
      → end ≤ paddr + rounds * page_size
      → paddr + rounds * page_size < end + page_size
      → end + page_size ≤ 2 ^ 64
      → collect_region kstart_pg kend fuel paddr end st ≡ collect_all (region_addrs rounds paddr) st
  unfolding collect_region collect_all region_addrs
  collect_region-collect_all zero rounds paddr end st lt lo hi word = absurd (omega arith)
  collect_region-collect_all (suc fuel) zero paddr end st lt lo hi word = ground arith
  collect_region-collect_all (suc fuel) (suc rounds) paddr end st lt lo hi word =
      let more : ltb paddr end ≡ true = ground arith in
      let next : add64 paddr page_size ≡ paddr + page_size = omega arith in
      rw (more, collect_region)
        (elim (Option-cases (collect_page kstart_pg kend paddr st)) [
          | inl e ↦ rw (e, collect_all)
          | inr (st', e) ↦
              rw (e, next, collect_all)
                (collect_region-collect_all fuel rounds (paddr + page_size) end st' (omega arith)
                  (omega arith) (omega arith) word)
        ])
