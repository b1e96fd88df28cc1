-- ===== src/PageTable/Walk/Tree.antt =====
-- How the processor reads the tables, and the tree that they form.
use native.Mathlib.Nat.{div-div-eq-div-mul, pow-suc, mod-lt}
use chestnut.Base.{
  ℕ, zero, suc, ◌+◌, ◌*◌, ◌/◌, ◌%◌, ◌^◌, ◌<◌, ◌≡◌, sym, ap, ◌∙◌, true, false, ◌||◌, not, Option,
  none, some, ◌==◌, if◌then◌else◌, arith,
}
use chestnut.Pages.{page_size}
use chestnut.PageTable.{get_flag, physical_address}
use chestnut.PageTable.Walk.{index, slot}

-- The walk of the processor through tables of levels below `levels`: the level of the entry that
-- ends it, and the entry, if it is present.
unfoldable pub lookup : ℕ → ℕ → ℕ → (ℕ → ℕ) → Option (ℕ × ℕ)
lookup zero table vaddr words = none
lookup (suc level) table vaddr words =
    let entry = words (slot table level vaddr) in
    let rest = lookup level (physical_address entry) vaddr words in
    if not (get_flag 0 entry)
    then none
    else if (level == 0) || get_flag 7 entry
    then some (level, entry)
    else rest

-- The address that the entry at the end of a walk gives.
unfoldable pub target : ℕ → Option (ℕ × ℕ) → Option ℕ
target vaddr none = none
target vaddr (some (level, entry)) = some (physical_address entry + vaddr % 2 ^ (12 + level * 9))

-- The address that a virtual address leads to.
unfoldable pub translate : ℕ → ℕ → (ℕ → ℕ) → Option ℕ
translate root vaddr words = target vaddr (lookup 4 root vaddr words)

-- The part of an address above a level, within the 48 bits that the tables translate.
unfoldable pub region : ℕ → ℕ → ℕ
region level vaddr = vaddr % 2 ^ 48 / 2 ^ (12 + level * 9)

shift_nine : (s : ℕ) → 2 ^ (s + 9) ≡ 2 ^ s * 512
shift_nine s =
    let e : s + 9 ≡ suc (suc (suc (suc (suc (suc (suc (suc (suc s)))))))) = omega arith in
    rw e (
      omega (
        arith,
        pow-suc 2 s,
        pow-suc 2 (suc s),
        pow-suc 2 (suc (suc s)),
        pow-suc 2 (suc (suc (suc s))),
        pow-suc 2 (suc (suc (suc (suc s)))),
        pow-suc 2 (suc (suc (suc (suc (suc s))))),
        pow-suc 2 (suc (suc (suc (suc (suc (suc s)))))),
        pow-suc 2 (suc (suc (suc (suc (suc (suc (suc s))))))),
        pow-suc 2 (suc (suc (suc (suc (suc (suc (suc (suc s)))))))),
      ))

pub region-suc : (level vaddr : ℕ) → region (suc level) vaddr ≡ region level vaddr / 512
unfolding region
region-suc level vaddr =
    let e : 2 ^ (12 + level * 9) * 512 ≡ 2 ^ (12 + suc level * 9) =
      sym (ap (λ (x : ℕ). 2 ^ x) (omega arith) ∙ shift_nine (12 + level * 9)) in
    sym (
      div-div-eq-div-mul (vaddr % 2 ^ 48) (2 ^ (12 + level * 9)) 512
      ∙ ap (λ (x : ℕ). vaddr % 2 ^ 48 / x) e)

pub index-region : (level vaddr : ℕ) → level < 4 → index level vaddr ≡ region level vaddr % 512
unfolding index region
index-region zero vaddr lt = omega arith
index-region (suc zero) vaddr lt = omega arith
index-region (suc (suc zero)) vaddr lt = omega arith
index-region (suc (suc (suc zero))) vaddr lt = omega arith
index-region (suc (suc (suc (suc level)))) vaddr lt = absurd (omega arith)

pub index-lt : (level vaddr : ℕ) → index level vaddr < 512
unfolding index
index-lt level vaddr = mod-lt _ (omega arith)

pub region_split :
    (level v : ℕ) → level < 4 → region (suc level) v * 512 + index level v ≡ region level v
region_split level v lt = omega (arith, index-region level v lt, region-suc level v)

-- The tables that a page table consists of: for a page, the level and the region of its table.
abbrev pub Layout : Type 0
Layout = ℕ → Option (ℕ × ℕ)

-- Every entry of a table that is present and not huge leads to the table of its part of the region.
pub record IsTree (words : ℕ → ℕ) (layout : Layout) : Type 0 where
  pub linked :
      (t level part i : ℕ)
      → layout t ≡ some (suc level, part)
      → i < 512
      → get_flag 0 (words (t + 8 * i)) ≡ true
      → get_flag 7 (words (t + 8 * i)) ≡ false
      → layout (physical_address (words (t + 8 * i))) ≡ some (level, part * 512 + i)
  pub aligned : (t : ℕ) (x : ℕ × ℕ) → layout t ≡ some x → t % page_size ≡ 0

-- The entry for an address leads to the table for the address.
pub linked_at :
    (words : ℕ → ℕ) (layout : Layout) (t level v : ℕ)
    → IsTree words layout
    → level < 3
    → layout t ≡ some (suc level, region (suc (suc level)) v)
    → get_flag 0 (words (slot t (suc level) v)) ≡ true
    → get_flag 7 (words (slot t (suc level) v)) ≡ false
    → layout (physical_address (words (slot t (suc level) v))) ≡ some (level, region (suc level) v)
unfolding slot
linked_at words layout t level v tree lt here present small =
    tree.linked t level (region (suc (suc level)) v) (index (suc level) v) here
      (index-lt (suc level) v) present small
    ∙ ap (λ (x : ℕ). some (level, x)) (region_split (suc level) v (omega arith))
