-- ===== src/PageTable/Walk/Fresh.antt =====
-- The tables behind `Allocate`: which walks it changes.
use chestnut.Base.{
  ℕ, suc, ◌+◌, ◌*◌, ◌%◌, ◌^◌, ◌<◌, ◌≡◌, ◌≢◌, inl, inr, refl, sym, ap, ◌∙◌, false, Bool-cases, none,
  some, ◌==◌, if◌then◌else◌, store_ne, arith, ==_ne,
}
use chestnut.Pages.{page_size}
use chestnut.PageTable.{get_flag, new_entry}
use chestnut.PageTable.Entry.{new_entry_lem}
use chestnut.PageTable.Walk.{index, slot}
use chestnut.PageTable.Walk.Tree.{lookup, region, index-lt, Layout, IsTree}
use chestnut.PageTable.Walk.Outside.{OnlyAt}
use chestnut.PageTable.Walk.Allocate.{
  allocated, allocated_loc, allocated_page, allocated_other, allocated-IsTree, allocated-OnlyAt,
  grown, no_flags, on_table,
}
use chestnut.PageTable.Walk.Step.{IsMapped, around, same_slot, apart_labels}

-- The tables behind `AllocateOrPresent` of an entry that was not present.
module _ (page t level v : ℕ) (words : ℕ → ℕ) (layout : Layout) (tree : IsTree words layout)
    (low : level < 3) (here : layout t ≡ some (suc level, region (suc (suc level)) v))
    (fresh : layout page ≡ none) (pa : page % page_size ≡ 0) (fits : page < 2 ^ 64)
    (absent : get_flag 0 (words (slot t (suc level) v)) ≡ false) where
  abbrev now : ℕ → ℕ
  now = allocated page (slot t (suc level) v) words

  t_page : t ≢ page
  t_page = on_table layout t page (suc level, region (suc (suc level)) v) here fresh

  t_aligned : t % page_size ≡ 0
  t_aligned = tree.aligned t (suc level, region (suc (suc level)) v) here

  pub new_word : now (slot t (suc level) v) ≡ new_entry page
  unfolding slot
  new_word =
      allocated_loc page t (index (suc level) v) words t_page t_aligned pa (index-lt (suc level) v)

  pub empty_page : (lev w : ℕ) → now (slot page lev w) ≡ 0
  unfolding slot
  empty_page lev w =
      allocated_page page t (index (suc level) v) words t_page t_aligned pa (index-lt (suc level) v)
        (8 * index lev w) (omega (arith, index-lt lev w))

  nothing_before :
      (w : ℕ)
      → slot t (suc level) w ≡ slot t (suc level) v
      → lookup (suc (suc level)) t w words ≡ none
  unfolding lookup
  nothing_before w e = rw (e, absent) refl

  nothing_now :
      (w : ℕ)
      → slot t (suc level) w ≡ slot t (suc level) v
      → lookup (suc (suc level)) t w now ≡ none
  unfolding lookup
  nothing_now w e =
      let (a, p, h) = new_entry_lem page fits pa in
      rw
        (
          e,
          new_word,
          p,
          h,
          ==_ne (suc level) 0 (λ z. omega (arith, z)),
          a,
          empty_page level w,
          no_flags 0,
        )
        refl

  other_slot :
      (w : ℕ)
      → slot t (suc level) w ≢ slot t (suc level) v
      → now (slot t (suc level) w) ≡ words (slot t (suc level) w)
  unfolding slot
  other_slot w ne =
      allocated_other page t (index (suc level) v) words t_page t_aligned pa
        (index-lt (suc level) v) t (8 * index (suc level) w) t_aligned t_page
        (omega (arith, index-lt (suc level) w)) (λ e. ne (sym e))

  now-OnlyAt : OnlyAt v layout words now
  unfolding slot
  now-OnlyAt = allocated-OnlyAt page t level v words layout tree low here fresh pa fits

  pub now-IsTree : IsTree now (grown page level v layout)
  unfolding slot
  now-IsTree = allocated-IsTree page t level v words layout tree low here fresh pa fits

  -- No walk from the table has changed.
  lookup-allocated :
      (w : ℕ)
      → region (suc (suc level)) w ≡ region (suc (suc level)) v
      → lookup (suc (suc level)) t w now ≡ lookup (suc (suc level)) t w words
  lookup-allocated w high = elim (Bool-cases (slot t (suc level) w == slot t (suc level) v)) [
    | inl s ↦
        let e : slot t (suc level) w ≡ slot t (suc level) v = ground arith in
        nothing_now w e ∙ sym (nothing_before w e)
    | inr o ↦
        let ne : slot t (suc level) w ≢ slot t (suc level) v = ground arith in
        around words now layout t level v w tree low here now-OnlyAt (other_slot w ne) high
          (λ s. ne (same_slot t level v w low high s))
  ]

  pub grown_old : (u : ℕ) (x : ℕ × ℕ) → layout u ≡ some x → grown page level v layout u ≡ some x
  grown_old u x hu =
      store_ne layout page (some (level, region (suc level) v)) u
        (λ e. on_table layout u page x hu fresh (sym e))
      ∙ hu

  above_now :
      (u lev part j : ℕ)
      → layout u ≡ some (lev, part)
      → suc level < lev
      → j < page_size
      → now (u + j) ≡ words (u + j)
  unfolding slot
  above_now u lev part j hu lt h =
      allocated_other page t (index (suc level) v) words t_page t_aligned pa
        (index-lt (suc level) v) u j (tree.aligned u (lev, part) hu)
        (on_table layout u page (lev, part) hu fresh) h
        (apart_labels words layout t u (suc level) (region (suc (suc level)) v) lev part
          (8 * index (suc level) v) j tree here hu (inl (omega arith))
          (omega (arith, index-lt (suc level) v)) h)

  -- What holds after the allocation holds of both together.
  pub now-IsMapped :
      (entry : ℕ) (words' : ℕ → ℕ)
      → IsMapped (suc level) t v entry now words' (grown page level v layout)
      → IsMapped (suc level) t v entry words words' layout
  now-IsMapped entry words' m = record {
    mapped = λ w high.
        m.mapped w high
        ∙ ap (λ x. if region 0 w == region 0 v then some (0, entry) else x)
            (lookup-allocated w high);
    only = λ u lev part j hu apart h.
        m.only u lev part j (grown_old u (lev, part) hu) apart h
        ∙ now-OnlyAt u lev part j hu apart h;
    above = λ u lev part j hu lt h.
        m.above u lev part j (grown_old u (lev, part) hu) lt h ∙ above_now u lev part j hu lt h;
  }
