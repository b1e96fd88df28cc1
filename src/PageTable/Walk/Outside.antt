-- ===== src/PageTable/Walk/Outside.antt =====
-- A change of the tables for one address, and the walks to other addresses.
use chestnut.Base.{
  ℕ, zero, suc, ◌+◌, ◌*◌, ◌/◌, ◌<◌, ◌≡◌, ◌≢◌, inl, inr, refl, sym, ap, ◌∙◌, Bool-cases, some, arith,
  ==_ne,
}
use chestnut.Pages.{page_size}
use chestnut.PageTable.{get_flag, physical_address}
use chestnut.PageTable.Walk.{index, slot}
use chestnut.PageTable.Walk.Tree.{lookup, region, region-suc, index-lt, Layout, IsTree, linked_at}

-- Only tables for the address have changed.
abbrev pub OnlyAt : ℕ → Layout → (ℕ → ℕ) → (ℕ → ℕ) → Type 0
OnlyAt v layout words words' =
    (u level part j : ℕ)
    → layout u ≡ some (level, part)
    → part ≢ region (suc level) v
    → j < page_size
    → words' (u + j) ≡ words (u + j)

slot-same :
    (v u level w : ℕ) (layout : Layout) (words words' : ℕ → ℕ)
    → OnlyAt v layout words words'
    → layout u ≡ some (level, region (suc level) w)
    → region (suc level) w ≢ region (suc level) v
    → words' (slot u level w) ≡ words (slot u level w)
unfolding slot
slot-same v u level w layout words words' only here apart =
    only u level (region (suc level) w) (8 * index level w) here apart
      (omega (arith, index-lt level w))

-- A walk in a table for another part of memory goes as before.
pub lookup-OnlyAt :
    (v level u w : ℕ) (layout : Layout) (words words' : ℕ → ℕ)
    → level < 4
    → IsTree words layout
    → OnlyAt v layout words words'
    → layout u ≡ some (level, region (suc level) w)
    → region (suc level) w ≢ region (suc level) v
    → lookup (suc level) u w words' ≡ lookup (suc level) u w words
unfolding lookup
lookup-OnlyAt v zero u w layout words words' lt tree only here apart =
    rw (slot-same v u zero w layout words words' only here apart) (ground arith)
lookup-OnlyAt v (suc level) u w layout words words' lt tree only here apart =
    let e = words (slot u (suc level) w) in
    rw (slot-same v u (suc level) w layout words words' only here apart)
      (elim (Bool-cases (get_flag 0 e)) [
        | inr absent ↦ rw absent refl
        | inl present ↦ elim (Bool-cases (get_flag 7 e)) [
          | inl huge ↦ rw (present, huge) (ground arith)
          | inr small ↦
              let next = linked_at words layout u level w tree (omega arith) here present small in
              let apart' : region (suc level) w ≢ region (suc level) v = λ s. apart (
                region-suc (suc level) w
                ∙ (ap (λ (x : ℕ). x / 512) s ∙ sym (region-suc (suc level) v))) in
              let ih =
                lookup-OnlyAt v level (physical_address e) w layout words words' (omega arith) tree
                  only next apart' in
              rw (present, small, ==_ne (suc level) 0 (λ z. omega (arith, z))) ih
        ]
      ])
