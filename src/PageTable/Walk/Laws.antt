-- ===== src/PageTable/Walk/Laws.antt =====
-- `AllocateOrPresent` from entry to entry down to the table of 4 kB pages: the tables behind it.
use chestnut.Base.{
  ℕ, zero, suc, ◌+◌, ◌≤◌, ◌<◌, ◌≡◌, inl, inr, refl, sym, ap, ◌∙◌, true, false, Bool-cases, subst,
  some, List, [], ◌∷◌, store, store_self, store_ne, arith, length,
}
use chestnut.PageTable.{get_flag, physical_address}
use chestnut.PageTable.Entry.{new_entry_lem}
use chestnut.PageTable.Walk.{Tables, slot, allocate, allocate_or_present, put}
use chestnut.PageTable.Walk.Tree.{region, Layout, IsTree, linked_at}
use chestnut.PageTable.Walk.Allocate.{allocated, IsSupply, grown, no_flags}
use chestnut.PageTable.Walk.Step.{NoHuge, IsMapped, leaf-IsMapped, step-IsMapped}
use chestnut.PageTable.Walk.Fresh.{new_word, empty_page, now-IsTree, now-IsMapped, grown_old}

put_next :
    (level t v entry : ℕ) (s s1 : Tables)
    → allocate_or_present (slot t (suc level + 0) v) s ≡ some s1
    → get_flag 7 (s1.words (slot t (suc level + 0) v)) ≡ false
    → put 0 (suc level) t v entry s
      ≡ put 0 level (physical_address (s1.words (slot t (suc level + 0) v))) v entry s1
unfolding put
put_next level t v entry s s1 e h = rw (put, e) (rw (put, h) (ground arith))

-- One step of the chain, whose entry leads to a table.
put_step :
    (level t v entry : ℕ) (s s1 : Tables)
    → allocate_or_present (slot t (suc level) v) s ≡ some s1
    → get_flag 7 (s1.words (slot t (suc level) v)) ≡ false
    → put 0 (suc level) t v entry s
      ≡ put 0 level (physical_address (s1.words (slot t (suc level) v))) v entry s1
put_step level t v entry s s1 =
    let top : suc level + 0 ≡ suc level = omega arith in
    subst
      (λ (x : ℕ).
        allocate_or_present (slot t x v) s ≡ some s1
        → get_flag 7 (s1.words (slot t x v)) ≡ false
        → put 0 (suc level) t v entry s
          ≡ put 0 level (physical_address (s1.words (slot t x v))) v entry s1)
      top (put_next level t v entry s s1)

IsSupply-rest :
    (layout : Layout) (page : ℕ) (pages : List ℕ) (x : ℕ × ℕ)
    → IsSupply layout (page ∷ pages)
    → IsSupply (store layout page (some x)) pages
IsSupply-rest layout page pages x supply =
    let (new, rest) = supply.distinct in
    record {
      distinct = rest;
      fresh = λ p h.
          let (a, b, c) = supply.fresh p (ground arith) in
          (store_ne layout page (some x) p (λ e. cc (new, h, e)) ∙ a, b, c);
    }

abbrev tables : (ℕ → ℕ) → List ℕ → Tables
tables words pages = record { words = words; free_pages = pages }

abbrev pub Puts : ℕ → ℕ → ℕ → ℕ → (ℕ → ℕ) → List ℕ → Layout → Type 0
Puts level t v entry words pages layout =
    (s' : Tables) × (put 0 level t v entry (tables words pages) ≡ some s')
    × IsMapped level t v entry words s'.words layout

put_leaf :
    (t v entry : ℕ) (words : ℕ → ℕ) (pages : List ℕ) (layout : Layout)
    → IsTree words layout
    → layout t ≡ some (0, region 1 v)
    → get_flag 0 entry ≡ true
    → Puts 0 t v entry words pages layout
unfolding put
put_leaf t v entry words pages layout tree here present = (
  tables (store words (slot t 0 v) entry) pages,
  refl,
  leaf-IsMapped words layout t v entry tree here present,
)

found :
    (loc : ℕ) (words : ℕ → ℕ) (pages : List ℕ)
    → get_flag 0 (words loc) ≡ true
    → allocate_or_present loc (tables words pages) ≡ some (tables words pages)
unfolding allocate_or_present
found loc words pages present = rw present refl

made :
    (loc page : ℕ) (words : ℕ → ℕ) (pages : List ℕ)
    → get_flag 0 (words loc) ≡ false
    → allocate_or_present loc (tables words (page ∷ pages))
      ≡ some (tables (allocated page loc words) pages)
unfolding allocate_or_present allocate allocated
made loc page words pages absent = rw absent refl

empty-NoHuge :
    (level t v : ℕ) (words : ℕ → ℕ)
    → ((lev w : ℕ) → words (slot t lev w) ≡ 0)
    → NoHuge level t v words
empty-NoHuge zero t v words empty = tt
empty-NoHuge (suc level) t v words empty = λ p. absurd (cc (empty (suc level) v, no_flags 0, p))

module _ (level t v entry : ℕ) (words : ℕ → ℕ) (layout : Layout) (low : level < 3)
    (tree : IsTree words layout)
    (here : layout t ≡ some (suc level, region (suc (suc level)) v)) where
  put_found :
      (pages : List ℕ)
      → (present : get_flag 0 (words (slot t (suc level) v)) ≡ true)
      → (small : get_flag 7 (words (slot t (suc level) v)) ≡ false)
      → Puts level (physical_address (words (slot t (suc level) v))) v entry words pages layout
      → Puts (suc level) t v entry words pages layout
  put_found pages present small (s', e, m) =
      let loc = slot t (suc level) v in
      (
        s',
        put_step level t v entry (tables words pages) (tables words pages)
              (found loc words pages present) small
            ∙ e,
        step-IsMapped words s'.words layout t level v entry tree low here present small m,
      )

  put_made :
      (page : ℕ) (pages : List ℕ)
      → IsSupply layout (page ∷ pages)
      → get_flag 0 (words (slot t (suc level) v)) ≡ false
      → Puts level page v entry
          (allocated page (slot t (suc level) v) words)
          pages
          (grown page level v layout)
      → Puts (suc level) t v entry words (page ∷ pages) layout
  put_made page pages supply absent (s', e, m) =
      let loc = slot t (suc level) v in
      let (fresh, pa, fits) = supply.fresh page (ground arith) in
      let word = new_word page t level v words layout tree low here fresh pa fits absent in
      let (to, flag, small') = new_entry_lem page fits pa in
      let small = ap (get_flag 7) word ∙ small' in
      let present = ap (get_flag 0) word ∙ flag in
      let next = ap physical_address word ∙ to in
      let m' =
        subst
          (λ (x : ℕ).
            IsMapped level x v entry (allocated page loc words) s'.words
              (grown page level v layout))
          (sym next) m in
      let here' =
        grown_old page t level v words layout tree low here fresh pa fits absent t
          (suc level, region (suc (suc level)) v) here in
      let whole =
        step-IsMapped (allocated page loc words) s'.words (grown page level v layout) t level v
          entry (now-IsTree page t level v words layout tree low here fresh pa fits absent) low
          here' present small m' in
      (
        s',
        put_step level t v entry (tables words (page ∷ pages))
              (tables (allocated page loc words) pages) (made loc page words pages absent) small
            ∙ (ap (λ (x : ℕ). put 0 level x v entry (tables (allocated page loc words) pages)) next
                ∙ e),
        now-IsMapped page t level v words layout tree low here fresh pa fits absent entry s'.words
            whole,
      )

pub put_lem :
    (level t v entry : ℕ) (words : ℕ → ℕ) (pages : List ℕ) (layout : Layout)
    → level < 4
    → IsTree words layout
    → layout t ≡ some (level, region (suc level) v)
    → IsSupply layout pages
    → level ≤ length pages
    → NoHuge level t v words
    → get_flag 0 entry ≡ true
    → Puts level t v entry words pages layout
put_lem zero t v entry words pages layout lt tree here supply enough flat present =
    put_leaf t v entry words pages layout tree here present
put_lem (suc level) t v entry words [] layout lt tree here supply enough flat present =
    absurd (omega (arith, enough))
put_lem (suc level) t v entry words (page ∷ pages) layout lt tree here supply enough flat present =
    let loc = slot t (suc level) v in
    elim (Bool-cases (get_flag 0 (words loc))) [
      | inl p ↦
          let (small, rest) = flat p in
          let next = linked_at words layout t level v tree (omega arith) here p small in
          put_found level t v entry words layout (omega arith) tree here (page ∷ pages) p small (
            put_lem level (physical_address (words loc)) v entry words (page ∷ pages) layout
              (omega arith) tree next supply (omega arith) rest present)
      | inr a ↦
          let (fresh, pa, fits) = supply.fresh page (ground arith) in
          put_made level t v entry words layout (omega arith) tree here page pages supply a (
            put_lem level page v entry (allocated page loc words) pages (grown page level v layout)
              (omega arith)
              (now-IsTree page t level v words layout tree (omega arith) here fresh pa fits a)
              (store_self layout page (some (level, region (suc level) v)))
              (IsSupply-rest layout page pages (level, region (suc level) v) supply) (omega arith)
              (empty-NoHuge level page v (allocated page loc words)
                (empty_page page t level v words layout tree (omega arith) here fresh pa fits a))
              present)
    ]
