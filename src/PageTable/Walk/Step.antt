-- ===== src/PageTable/Walk/Step.antt =====
-- What a change of the tables below an entry does to the walks through the entry.
use chestnut.Base.{
  ℕ, zero, suc, ◌+◌, ◌*◌, ◌/◌, ◌<◌, ◌≡◌, ◌≢◌, ◌⊎◌, inl, inr, refl, sym, ap, ◌∙◌, true, false,
  Bool-cases, some, ◌==◌, if◌then◌else◌, store, store_self, store_ne, arith, ==_ne,
}
use chestnut.Pages.{page_size}
use chestnut.PageTable.{get_flag, physical_address}
use chestnut.PageTable.Walk.{index, slot}
use chestnut.PageTable.Walk.Tree.{
  lookup, region, region-suc, index-lt, region_split, Layout, IsTree, linked_at,
}
use chestnut.PageTable.Walk.Outside.{OnlyAt, lookup-OnlyAt}
use chestnut.PageTable.Walk.Allocate.{apart_pages}

-- No entry on the way to an address maps a large page.
abbrev pub NoHuge : ℕ → ℕ → ℕ → (ℕ → ℕ) → Type 0
NoHuge zero t v words = Unit {0}
NoHuge (suc level) t v words =
    get_flag 0 (words (slot t (suc level) v)) ≡ true
    → (get_flag 7 (words (slot t (suc level) v)) ≡ false)
      × NoHuge level (physical_address (words (slot t (suc level) v))) v words

-- A change below a table of a level, for one address.
pub record IsMapped (level t v entry : ℕ) (words words' : ℕ → ℕ) (layout : Layout) : Type 0 where
  pub mapped :
      (w : ℕ)
      → region (suc level) w ≡ region (suc level) v
      → lookup (suc level) t w words'
        ≡ (if region 0 w == region 0 v then some (0, entry) else lookup (suc level) t w words)
  pub only : OnlyAt v layout words words'
  pub above :
      (u lev part j : ℕ)
      → layout u ≡ some (lev, part)
      → level < lev
      → j < page_size
      → words' (u + j) ≡ words (u + j)

pub same_label :
    (layout : Layout) (t u a b c d : ℕ)
    → layout t ≡ some (a, b)
    → layout u ≡ some (c, d)
    → t ≡ u
    → (a ≡ c) × (b ≡ d)
same_label layout t u a b c d ht hu e =
    let labels : some (a, b) ≡ some (c, d) = sym ht ∙ (ap layout e ∙ hu) in (cc labels, cc labels)

-- A word of a table is no word of a table with another label.
pub apart_labels :
    (words : ℕ → ℕ) (layout : Layout) (t u a b c d i j : ℕ)
    → IsTree words layout
    → layout t ≡ some (a, b)
    → layout u ≡ some (c, d)
    → (a ≢ c) ⊎ (b ≢ d)
    → i < page_size
    → j < page_size
    → t + i ≢ u + j
apart_labels words layout t u a b c d i j tree ht hu ne hi hj =
    apart_pages t u i j (tree.aligned t (a, b) ht) (tree.aligned u (c, d) hu)
      (λ e.
        let (x, y) = same_label layout t u a b c d ht hu e in elim ne [ inl n ↦ n x | inr n ↦ n y ])
      hi hj

module _ (words : ℕ → ℕ) (layout : Layout) (t v entry : ℕ) (tree : IsTree words layout)
    (here : layout t ≡ some (0, region 1 v)) (present : get_flag 0 entry ≡ true) where
  same_index : (w : ℕ) → region 1 w ≡ region 1 v → region 0 w ≡ region 0 v → slot t 0 w ≡ slot t 0 v
  unfolding slot
  same_index w high low =
      omega (arith, high, low, region_split 0 w (omega arith), region_split 0 v (omega arith))

  other_index :
      (w : ℕ) → region 1 w ≡ region 1 v → region 0 w ≢ region 0 v → slot t 0 v ≢ slot t 0 w
  unfolding slot
  other_index w high low e =
      low (omega (arith, high, e, region_split 0 w (omega arith), region_split 0 v (omega arith)))

  stored_other :
      (u lev part j : ℕ)
      → layout u ≡ some (lev, part)
      → (0 ≢ lev) ⊎ (region 1 v ≢ part)
      → j < page_size
      → store words (slot t 0 v) entry (u + j) ≡ words (u + j)
  unfolding slot
  stored_other u lev part j hu ne h = store_ne words (slot t 0 v) entry (u + j) (
      apart_labels words layout t u 0 (region 1 v) lev part (8 * index 0 v) j tree here hu ne
        (omega (arith, index-lt 0 v)) h)

  -- The store of the entry itself.
  pub leaf-IsMapped : IsMapped 0 t v entry words (store words (slot t 0 v) entry) layout
  unfolding lookup
  leaf-IsMapped = record {
    mapped = λ w high. elim (Bool-cases (region 0 w == region 0 v)) [
      | inl same ↦
          let word : store words (slot t 0 v) entry (slot t 0 w) ≡ entry =
            ap (store words (slot t 0 v) entry) (same_index w high (ground arith))
            ∙ store_self words (slot t 0 v) entry in
          rw (word, same, present) refl
      | inr other ↦
          rw
            (
              other,
              store_ne words (slot t 0 v) entry (slot t 0 w) (other_index w high (ground arith)),
            )
            refl
    ];
    only = λ u lev part j hu apart h. elim (Bool-cases (lev == 0)) [
      | inl z ↦
          let e : lev ≡ 0 = ground arith in
          stored_other u lev part j hu
            (inr (λ s. apart (sym s ∙ ap (λ (x : ℕ). region (suc x) v) (sym e)))) h
      | inr nz ↦ stored_other u lev part j hu (inl (ground arith)) h
    ];
    above = λ u lev part j hu lt h. stored_other u lev part j hu (inl (omega arith)) h;
  }

-- The parts of two addresses agree above a level where they agree.
pub region_up : (level w v : ℕ) → region 0 w ≡ region 0 v → region level w ≡ region level v
region_up zero w v s = s
region_up (suc level) w v s =
    region-suc level w
    ∙ (ap (λ (x : ℕ). x / 512) (region_up level w v s) ∙ sym (region-suc level v))

pub same_slot :
    (t level v w : ℕ)
    → level < 3
    → region (suc (suc level)) w ≡ region (suc (suc level)) v
    → region (suc level) w ≡ region (suc level) v
    → slot t (suc level) w ≡ slot t (suc level) v
unfolding slot
same_slot t level v w low high s = omega (
  arith,
  high,
  s,
  region_split (suc level) w (omega arith),
  region_split (suc level) v (omega arith),
)

-- A walk through another entry of the table goes as before.
pub around :
    (words words' : ℕ → ℕ) (layout : Layout) (t level v w : ℕ)
    → IsTree words layout
    → level < 3
    → layout t ≡ some (suc level, region (suc (suc level)) v)
    → OnlyAt v layout words words'
    → words' (slot t (suc level) w) ≡ words (slot t (suc level) w)
    → region (suc (suc level)) w ≡ region (suc (suc level)) v
    → region (suc level) w ≢ region (suc level) v
    → lookup (suc (suc level)) t w words' ≡ lookup (suc (suc level)) t w words
unfolding lookup
around words words' layout t level v w tree low here only kept high apart =
    let e = words (slot t (suc level) w) in
    let here' : layout t ≡ some (suc level, region (suc (suc level)) w) =
      here ∙ ap (λ (x : ℕ). some (suc level, x)) (sym high) in
    rw kept (elim (Bool-cases (get_flag 0 e)) [
      | inr absent ↦ rw absent refl
      | inl p ↦ elim (Bool-cases (get_flag 7 e)) [
        | inl huge ↦ rw (p, huge) (ground arith)
        | inr h ↦
            let next = linked_at words layout t level w tree low here' p h in
            rw (p, h, ==_ne (suc level) 0 (λ z. omega (arith, z)))
              (lookup-OnlyAt v level (physical_address e) w layout words words' (omega arith) tree
                only next apart)
      ]
    ])

module _ (words words' : ℕ → ℕ) (layout : Layout) (t level v entry : ℕ) (tree : IsTree words layout)
    (low : level < 3) (here : layout t ≡ some (suc level, region (suc (suc level)) v))
    (present : get_flag 0 (words (slot t (suc level) v)) ≡ true)
    (small : get_flag 7 (words (slot t (suc level) v)) ≡ false)
    (below : IsMapped level
      (physical_address (words (slot t (suc level) v)))
      v
      entry
      words
      words'
      layout) where
  -- The entries of the table itself are as before.
  entry_kept : (w : ℕ) → words' (slot t (suc level) w) ≡ words (slot t (suc level) w)
  unfolding slot
  entry_kept w =
      below.above t (suc level) (region (suc (suc level)) v) (8 * index (suc level) w) here
        (omega arith) (omega (arith, index-lt (suc level) w))

  -- The walk through the entry goes on in the next table.
  through :
      (x : ℕ → ℕ)
      → x (slot t (suc level) v) ≡ words (slot t (suc level) v)
      → (w : ℕ) → slot t (suc level) w ≡ slot t (suc level) v
      → lookup (suc (suc level)) t w x
        ≡ lookup (suc level) (physical_address (words (slot t (suc level) v))) w x
  unfolding lookup
  through x f w e = rw (e, f, present, small, ==_ne (suc level) 0 (λ z. omega (arith, z))) refl

  step-mapped :
      (w : ℕ)
      → region (suc (suc level)) w ≡ region (suc (suc level)) v
      → lookup (suc (suc level)) t w words'
        ≡ (if region 0 w == region 0 v then some (0, entry) else lookup (suc (suc level)) t w words)
  step-mapped w high = elim (Bool-cases (region (suc level) w == region (suc level) v)) [
    | inl s ↦
        let same : region (suc level) w ≡ region (suc level) v = ground arith in
        let e = same_slot t level v w low high same in
        rw (through words' (entry_kept v) w e, through words refl w e) (below.mapped w same)
    | inr a ↦
        let apart : region (suc level) w ≢ region (suc level) v = ground arith in
        rw (==_ne (region 0 w) (region 0 v) (λ s. apart (region_up (suc level) w v s))) (
          around words words' layout t level v w tree low here below.only (entry_kept w) high apart)
  ]

  pub step-IsMapped : IsMapped (suc level) t v entry words words' layout
  step-IsMapped = record {
    mapped = step-mapped;
    only = below.only;
    above = λ u lev part j hu lt h. below.above u lev part j hu (omega arith) h;
  }
