-- ===== src/PageTable/Walk/Allocate.antt =====
-- `Allocate`: a cleared page becomes a table of the tree.
use chestnut.Base.{
  ℕ, suc, ◌+◌, ◌*◌, ◌%◌, ◌^◌, ◌≤◌, ◌<◌, ◌≡◌, ◌≢◌, ◌⊎◌, inl, inr, refl, sym, ap, ◌∙◌, true, false,
  ◌&&◌, Bool-cases, none, some, List, leb, ltb, ◌==◌, store, arith, has, Distinct, ==_ne, ==_refl,
}
use chestnut.Pages.{page_size}
use chestnut.PageTable.{get_flag, set_flag, new_entry, physical_address}
use chestnut.PageTable.Entry.{new_entry_lem}
use chestnut.PageTable.Walk.{index, clear_page}
use chestnut.PageTable.Walk.Tree.{region, index-lt, region_split, Layout, IsTree}
use chestnut.PageTable.Walk.Outside.{OnlyAt}

-- The pages to come are aligned and distinct, and no table is on them.
pub record IsSupply (layout : Layout) (pages : List ℕ) : Type 0 where
  pub distinct : Distinct pages
  pub fresh :
      (page : ℕ)
      → has page pages ≡ true
      → (layout page ≡ none) × (page % page_size ≡ 0) × (page < 2 ^ 64)

pub no_flags : (bit : ℕ) → get_flag 0 0 ≡ false
unfolding get_flag
no_flags bit = refl

-- Tables on different pages share no word.
pub apart_pages :
    (t u i j : ℕ)
    → t % page_size ≡ 0
    → u % page_size ≡ 0
    → t ≢ u
    → i < page_size
    → j < page_size
    → t + i ≢ u + j
apart_pages t u i j ta ua ne hi hj e = ne (omega (arith, e))

-- The words behind `Allocate` of the entry at `loc`.
unfoldable pub allocated : ℕ → ℕ → (ℕ → ℕ) → ℕ → ℕ
allocated page loc words =
    let cleared = clear_page page (store words loc page) in
    store cleared loc (set_flag true 1 (set_flag true 0 (cleared loc)))

-- A word of a table is outside any other page.
outside_page :
    (t page i : ℕ)
    → t % page_size ≡ 0
    → page % page_size ≡ 0
    → t ≢ page
    → i < page_size
    → (leb page (t + i) && ltb (t + i) (page + page_size)) ≡ false
outside_page t page i ta pa off lt =
    let side : (t + i < page) ⊎ (page + page_size ≤ t + i) = omega (arith, off) in
    ground (arith, side)

module _ (page t i : ℕ) (words : ℕ → ℕ) (off : t ≢ page) (ta : t % page_size ≡ 0)
    (pa : page % page_size ≡ 0) (lt : i < 512) where
  pub allocated_loc : allocated page (t + 8 * i) words (t + 8 * i) ≡ new_entry page
  unfolding allocated clear_page new_entry
  allocated_loc = rw (outside_page t page (8 * i) ta pa off (omega arith), ==_refl (t + 8 * i)) refl

  pub allocated_page : (j : ℕ) → j < page_size → allocated page (t + 8 * i) words (page + j) ≡ 0
  unfolding allocated clear_page
  allocated_page j h =
      let inside : (leb page (page + j) && ltb (page + j) (page + page_size)) ≡ true =
        ground arith in
      rw
        (
          ==_ne (t + 8 * i) (page + j) (apart_pages t page (8 * i) j ta pa off (omega arith) h),
          inside,
        )
        refl

  pub allocated_other :
      (u j : ℕ)
      → u % page_size ≡ 0
      → u ≢ page
      → j < page_size
      → t + 8 * i ≢ u + j
      → allocated page (t + 8 * i) words (u + j) ≡ words (u + j)
  unfolding allocated clear_page
  allocated_other u j ua no_page h no_loc =
      rw (==_ne (t + 8 * i) (u + j) no_loc, outside_page u page j ua pa no_page h) refl

-- The table of the new page.
abbrev pub grown : ℕ → ℕ → ℕ → Layout → Layout
grown page level v layout = store layout page (some (level, region (suc level) v))

some_ne_none : {A : Type 0} (a : A) → some a ≢ none
some_ne_none a e = cc e

pub on_table :
    (layout : Layout) (t page : ℕ) (x : ℕ × ℕ) → layout t ≡ some x → layout page ≡ none → t ≢ page
on_table layout t page x here fresh e = some_ne_none x (sym here ∙ (ap layout e ∙ fresh))

module _ (page t level v : ℕ) (words : ℕ → ℕ) (layout : Layout) (tree : IsTree words layout)
    (small : level < 3) (here : layout t ≡ some (suc level, region (suc (suc level)) v))
    (fresh : layout page ≡ none) (pa : page % page_size ≡ 0) (fits : page < 2 ^ 64) where
  off : t ≢ page
  off = on_table layout t page (suc level, region (suc (suc level)) v) here fresh

  ta : t % page_size ≡ 0
  ta = tree.aligned t (suc level, region (suc (suc level)) v) here

  lt : index (suc level) v < 512
  lt = index-lt (suc level) v

  after : ℕ → ℕ
  after = allocated page (t + 8 * index (suc level) v) words

  grown-aligned : (u : ℕ) (x : ℕ × ℕ) → grown page level v layout u ≡ some x → u % page_size ≡ 0
  grown-aligned u x e = elim (Bool-cases (page == u)) [
    | inl same ↦ let s : page ≡ u = ground arith in rw (← s) pa
    | inr other ↦ tree.aligned u x (rw other at e)
  ]

  no_loc :
      (u lev part j : ℕ)
      → layout u ≡ some (lev, part)
      → u % page_size ≡ 0
      → part ≢ region (suc lev) v
      → j < page_size
      → t + 8 * index (suc level) v ≢ u + j
  no_loc u lev part j at_u ua apart h e = elim (Bool-cases (t == u)) [
    | inl same ↦
        let s : t ≡ u = ground arith in
        let labels : some (lev, part) ≡ some (suc level, region (suc (suc level)) v) =
          sym at_u ∙ (sym (ap layout s) ∙ here) in
        apart (cc labels)
    | inr other ↦
        apart_pages t u (8 * index (suc level) v) j ta ua (ground arith) (omega (arith, lt)) h e
  ]

  -- A table entry of the new tree that is not the new one.
  old_linked :
      (t' lev part i : ℕ)
      → layout t' ≡ some (suc lev, part)
      → i < 512
      → get_flag 0 (words (t' + 8 * i)) ≡ true
      → get_flag 7 (words (t' + 8 * i)) ≡ false
      → grown page level v layout (physical_address (words (t' + 8 * i)))
        ≡ some (lev, part * 512 + i)
  old_linked t' lev part i at h present small_entry =
      let l = tree.linked t' lev part i at h present small_entry in
      rw
        (==_ne page (physical_address (words (t' + 8 * i)))
          (λ e. some_ne_none (lev, part * 512 + i) (sym l ∙ (sym (ap layout e) ∙ fresh))))
        l

  new_linked :
      grown page level v layout (physical_address (new_entry page))
      ≡ some (level, region (suc level) v)
  new_linked = let (a, _, _) = new_entry_lem page fits pa in rw (a, ==_refl page) refl

  unmoved :
      (t' lev part i : ℕ)
      → layout t' ≡ some (suc lev, part)
      → page ≢ t'
      → i < 512
      → t + 8 * index (suc level) v ≢ t' + 8 * i
      → get_flag 0 (allocated page (t + 8 * index (suc level) v) words (t' + 8 * i)) ≡ true
      → get_flag 7 (allocated page (t + 8 * index (suc level) v) words (t' + 8 * i)) ≡ false
      → grown page level v layout
          (physical_address (allocated page (t + 8 * index (suc level) v) words (t' + 8 * i)))
        ≡ some (lev, part * 512 + i)
  unmoved t' lev part i on_t ne h no_entry present small_entry =
      let word =
        allocated_other page t (index (suc level) v) words off ta pa lt t' (8 * i)
          (tree.aligned t' (suc lev, part) on_t) (λ z. ne (sym z)) (omega (arith, h)) no_entry in
      ap (λ (x : ℕ). grown page level v layout (physical_address x)) word
      ∙ old_linked t' lev part i on_t h (sym (ap (get_flag 0) word) ∙ present)
          (sym (ap (get_flag 7) word) ∙ small_entry)

  same_table :
      (t' lev part : ℕ)
      → layout t' ≡ some (suc lev, part)
      → t ≡ t'
      → (level ≡ lev) × (region (suc (suc level)) v ≡ part)
  same_table t' lev part on_t s =
      let labels : some (suc level, region (suc (suc level)) v) ≡ some (suc lev, part) =
        sym here ∙ (ap layout s ∙ on_t) in
      (cc labels, cc labels)

  -- An entry of an old table: the one that has changed leads to the new table.
  kept :
      (t' lev part i : ℕ)
      → layout t' ≡ some (suc lev, part)
      → page ≢ t'
      → i < 512
      → get_flag 0 (allocated page (t + 8 * index (suc level) v) words (t' + 8 * i)) ≡ true
      → get_flag 7 (allocated page (t + 8 * index (suc level) v) words (t' + 8 * i)) ≡ false
      → grown page level v layout
          (physical_address (allocated page (t + 8 * index (suc level) v) words (t' + 8 * i)))
        ≡ some (lev, part * 512 + i)
  kept t' lev part i on_t ne h present small_entry = elim (Bool-cases (t == t')) [
    | inl same ↦
        let s : t ≡ t' = ground arith in
        let (l, p) = same_table t' lev part on_t s in
        elim (Bool-cases (index (suc level) v == i)) [
          | inl same_index ↦
              let si : index (suc level) v ≡ i = ground arith in
              let word : allocated page (t + 8 * index (suc level) v) words (t' + 8 * i)
                  ≡ new_entry page =
                rw (← s, ← si) (allocated_loc page t (index (suc level) v) words off ta pa lt) in
              let split : region (suc level) v ≡ part * 512 + i =
                sym (region_split (suc level) v (omega arith)) ∙ rw (p, si) refl in
              ap (λ (x : ℕ). grown page level v layout (physical_address x)) word
              ∙ (new_linked ∙ (λ k. some (l k, split k)))
          | inr other_index ↦
              unmoved t' lev part i on_t ne h (λ z. ground (arith, z)) present small_entry
        ]
    | inr other ↦
        unmoved t' lev part i on_t ne h
          (apart_pages t t' (8 * index (suc level) v) (8 * i) ta
            (tree.aligned t' (suc lev, part) on_t) (ground arith) (omega (arith, lt))
            (omega (arith, h)))
          present small_entry
  ]

  pub allocated-IsTree :
      IsTree (allocated page (t + 8 * index (suc level) v) words) (grown page level v layout)
  allocated-IsTree = record {
    linked = λ t' lev part i on_t h present small_entry. elim (Bool-cases (page == t')) [
      | inl same ↦
          let s : page ≡ t' = ground arith in
          let zero_word =
            allocated_page page t (index (suc level) v) words off ta pa lt (8 * i)
              (omega (arith, h)) in
          cc (rw s at zero_word, present, no_flags 0)
      | inr other ↦ kept t' lev part i (rw other at on_t) (ground arith) h present small_entry
    ];
    aligned = grown-aligned;
  }

  pub allocated-OnlyAt : OnlyAt v layout words (allocated page (t + 8 * index (suc level) v) words)
  allocated-OnlyAt u lev part j at_u apart h =
      let ua = tree.aligned u (lev, part) at_u in
      allocated_other page t (index (suc level) v) words off ta pa lt u j ua
        (on_table layout u page (lev, part) at_u fresh) h (no_loc u lev part j at_u ua apart h)
