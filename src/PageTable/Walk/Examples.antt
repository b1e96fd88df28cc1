-- ===== src/PageTable/Walk/Examples.antt =====
-- `MapPage` in an empty page table.
use chestnut.Base.{
  ℕ, ◌+◌, ◌-◌, ◌%◌, ◌^◌, ◌≡◌, refl, inl, inr, true, false, Bool-cases, none, some, List, [], ◌∷◌,
  ◌==◌, if◌then◌else◌, store, arith,
}
use chestnut.Pages.{page_size}
use chestnut.PageTable.{physical_address}
use chestnut.PageTable.Walk.{Tables, map_page}
use chestnut.PageTable.Walk.Tree.{translate, region, Layout, IsTree}
use chestnut.PageTable.Walk.Allocate.{IsSupply, no_flags}
use chestnut.PageTable.Walk.Mapped.{map_page_lem}

abbrev empty_words : ℕ → ℕ
empty_words a = 0

abbrev no_tables : Layout
no_tables a = none

abbrev one_table : Layout
one_table = store no_tables page_size (some (3, 0))

abbrev three_pages : List ℕ
three_pages = 8192 ∷ 12288 ∷ 16384 ∷ []

abbrev start : Tables
start = record { words = empty_words; free_pages = three_pages }

one_table_aligned : (t : ℕ) (x : ℕ × ℕ) → one_table t ≡ some x → t % page_size ≡ 0
one_table_aligned t x e = elim (Bool-cases (page_size == t)) [
  | inl same ↦ let s : t ≡ page_size = ground arith in rw s refl
  | inr other ↦ cc (rw other at e)
]

one_table-IsTree : IsTree empty_words one_table
one_table-IsTree = record {
  linked = λ t level part i on_t h present small. cc (present, no_flags 0);
  aligned = one_table_aligned;
}

three_pages-IsSupply : IsSupply one_table three_pages
three_pages-IsSupply = record {
  distinct = (refl, (refl, (refl, tt)));
  fresh = λ page h. elim (Bool-cases (8192 == page)) [
    | inl a ↦ let s : page ≡ 8192 = ground arith in rw s (refl, refl, omega arith)
    | inr a ↦ elim (Bool-cases (12288 == page)) [
      | inl b ↦ let s : page ≡ 12288 = ground arith in rw s (refl, refl, omega arith)
      | inr b ↦ elim (Bool-cases (16384 == page)) [
        | inl c ↦ let s : page ≡ 16384 = ground arith in rw s (refl, refl, omega arith)
        | inr c ↦ absurd (ground (arith, h, a, b, c))
      ]
    ]
  ];
}

root_table : one_table (physical_address page_size) ≡ some (3, 0)
unfolding physical_address
root_table = refl

map_page_lem_example :
    (s' : Tables) × (map_page (2 ^ 64 - 2 ^ 31) page_size 65536 false true start ≡ some s')
    × ((w : ℕ)
        → translate (physical_address page_size) w s'.words ≡ (
            if region 0 w == region 0 ((2 ^ 64 - 2 ^ 31 + 65536) % 2 ^ 64)
            then some (65536 + w % page_size)
            else translate (physical_address page_size) w empty_words))
map_page_lem_example =
    map_page_lem (2 ^ 64 - 2 ^ 31) page_size 65536 false true start one_table one_table-IsTree
      root_table three_pages-IsSupply (omega arith) (λ p. absurd (cc (p, no_flags 0))) (omega arith)
      refl
