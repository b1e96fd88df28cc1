-- ===== src/PageTable/Kernel/Examples.antt =====
-- The page table of the kernel at concrete tables.
use chestnut.Base.{ℕ, ◌+◌, ◌-◌, ◌*◌, ◌^◌, ◌<◌, ◌≡◌, ◌≢◌, refl, some, store, arith}
use chestnut.PageTable.{get_flag, physical_address}
use chestnut.PageTable.Walk.{index, slot}
use chestnut.PageTable.Walk.Tree.{translate}
use chestnut.PageTable.Kernel.{kern_address, next_table, init_boot_page_table}
use chestnut.PageTable.Kernel.Boot.{IsBootTree, init_boot_page_table_lem}

-- The offset of the kernel: 2 GB below the end.
abbrev offset : ℕ
offset = 2 ^ 64 - 2 ^ 31

-- Tables of level 3, 2 and 1 on the pages 1, 2 and 3.
abbrev boot_words : ℕ → ℕ
boot_words = store (store (λ a. 0) (4096 + 8 * 511) 8195) (8192 + 8 * 510) 12291

boot_words-IsBootTree : IsBootTree offset 4096 8192 12288 boot_words
unfolding next_table slot index physical_address get_flag
boot_words-IsBootTree = record {
  to_pdpt = refl;
  to_pd = refl;
  aligned = (refl, refl, refl);
  apart = (λ e. omega (arith, e), λ e. omega (arith, e));
  linked = (refl, refl, refl, refl);
}

init_boot_page_table_lem_example :
    ((a : ℕ)
      → a < 2 ^ 30
      → translate
          (physical_address 4096)
          (kern_address offset a)
          (init_boot_page_table offset 4096 boot_words)
        ≡ some a)
    × ((x : ℕ)
        → ((j : ℕ) → j < 512 → 12288 + 8 * j ≢ x)
        → init_boot_page_table offset 4096 boot_words x ≡ boot_words x)
init_boot_page_table_lem_example =
    init_boot_page_table_lem offset 4096 8192 12288 refl (omega arith) boot_words
      boot_words-IsBootTree
