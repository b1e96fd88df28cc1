-- ===== src/PageTable/Walk.antt =====
-- The tables in memory: `CommonEntry::operator[]`, `AllocateOrPresent`, the walk down to an entry, and
-- `PageTable::MapPage` (kern/page-table.h). A table has 512 entries of 8 bytes; the kernel reaches it by
-- its physical address.
pub mod Tree
pub mod Outside
pub mod Allocate
pub mod Step
pub mod Fresh
pub mod Laws
pub mod Mapped
mod Examples
use chestnut.Base.{
  ℕ, zero, suc, ◌+◌, ◌*◌, ◌/◌, ◌%◌, ◌^◌, ◌<◌, Bool, true, false, ◌&&◌, not, Option, none, some,
  List, [], ◌∷◌, ltb, leb, ◌==◌, if◌then◌else◌, store,
}
use chestnut.Pages.{page_size}
use chestnut.PageTable.{set_flag, get_flag, small_entry, physical_address}

-- The words of memory by their address, and the pages that `AllocPage` will give.
pub record Tables : Type 0 where
  pub words : ℕ → ℕ
  pub free_pages : List ℕ

-- The place of an address in the tables of a level, where 0 is the level of 4 kB pages.
unfoldable pub index : ℕ → ℕ → ℕ
index level vaddr = vaddr / 2 ^ (12 + level * 9) % 512

-- `next_level[offset]`, as an address.
unfoldable pub slot : ℕ → ℕ → ℕ → ℕ
slot table level vaddr = table + 8 * index level vaddr

-- `memset(PADDR_TO_KPTR(entry), 0, PAGESIZE)`.
unfoldable pub clear_page : ℕ → (ℕ → ℕ) → ℕ → ℕ
clear_page page words a = if leb page a && ltb a (page + page_size) then 0 else words a

-- `Allocate` of the entry at an address. Without a page the code follows a null pointer: `none`.
unfoldable pub allocate : ℕ → Tables → Option Tables
allocate loc s = elim s.free_pages [
  | [] ↦ none
  | page ∷ pages ↦
      let words = clear_page page (store s.words loc page) in
      some (record {
        words = store words loc (set_flag true 1 (set_flag true 0 (words loc)));
        free_pages = pages;
      })
]

unfoldable pub allocate_or_present : ℕ → Tables → Option Tables
allocate_or_present loc s = if get_flag 0 (s.words loc) then some s else allocate loc s

-- The chain of `AllocateOrPresent()[vaddr]` through `depth` entries, from a table on, and the
-- assignment at its end, in a table of level `bottom`. The panic of `operator[]` is `none`: it is at an entry of
-- level 1 that maps a large page.
unfoldable pub put : ℕ → ℕ → ℕ → ℕ → ℕ → Tables → Option Tables
put bottom zero table vaddr entry s =
    some (record s { words = store s.words (slot table bottom vaddr) entry })
put bottom (suc depth) table vaddr entry s =
    let loc = slot table (suc depth + bottom) vaddr in
    elim (allocate_or_present loc s) [
      | none ↦ none
      | some s' ↦
          if (depth + bottom == 0) && get_flag 7 (s'.words loc)
          then none
          else put bottom depth (physical_address (s'.words loc)) vaddr entry s'
    ]

-- The entry of `MapPage`, which has bit 4 for pages that are not cached.
unfoldable pub page_entry : ℕ → Bool → Bool → ℕ
page_entry paddr write_through cache_disabled =
    set_flag cache_disabled 4 (small_entry paddr write_through)

-- `MapPage`, where `cr3` is the entry of the page table.
unfoldable pub map_page : ℕ → ℕ → ℕ → Bool → Bool → Tables → Option Tables
map_page kern_offset cr3 paddr write_through cache_disabled s =
    put 0 3 (physical_address cr3) ((kern_offset + paddr) % 2 ^ 64)
      (page_entry paddr write_through cache_disabled) s
