-- ===== src/Pages/Examples.antt =====
-- The page allocator on four pages, and `Init` on a small memory map.
use chestnut.Base.{ℕ, ◌+◌, ◌≡◌, refl, some, List, [], ◌∷◌, arith, ltb, ◌==◌, ◌-◌, if◌then◌else◌}
use chestnut.Pages.{MemPages}
use chestnut.Pages.FreeList.{FreeList, Allocates, alloc_page-Allocates}
use chestnut.Pages.Run.{AllocatesRun, alloc_pages-AllocatesRun}
use chestnut.Pages.Setup.{MmapEntry, init_totals, init_pages}
use chestnut.Pages.Setup.Collect.{region_addrs, usable}
use chestnut.Pages.Setup.Available.{entry_addrs}
use chestnut.Pages.Setup.Totals.{init_pages-FreeList}

-- Pages 0 to 3 of five are free, in this order; page 4 is in use.
abbrev four : MemPages
four = record {
  avail_size = 0;
  reserved_size = 0;
  acpi_size = 0;
  tot_size = 0;
  avail_low = 0;
  max_phy = 0;
  nr_page_structs = 5;
  links = record {
    prev = λ p. if p == 1 then 5 else p - 1;
    next = λ p. if p == 5 then 1 else p + 1;
  };
  phyaddr = λ p. 0;
  is_free = λ p. ltb p 6;
  is_in_list = λ p. ltb p 6;
  slab_ptr = λ p. 0;
  slab_obj_size = λ p. 0;
}

four-FreeList : FreeList four (2 ∷ 3 ∷ 4 ∷ 5 ∷ [])
four-FreeList = record {
  ring = record { chain = ground arith; distinct = ground arith };
  free = λ i h. ground arith;
  listed = λ i h. ground arith;
}

alloc_page-Allocates_example : Allocates four (2 ∷ 3 ∷ 4 ∷ 5 ∷ [])
alloc_page-Allocates_example = alloc_page-Allocates four (2 ∷ 3 ∷ 4 ∷ 5 ∷ []) four-FreeList

alloc_pages-AllocatesRun_example : AllocatesRun four 3 (2 ∷ 3 ∷ 4 ∷ 5 ∷ [])
alloc_pages-AllocatesRun_example =
    alloc_pages-AllocatesRun four 3 (2 ∷ 3 ∷ 4 ∷ 5 ∷ []) four-FreeList (omega arith) (omega arith)
      (omega arith)

-- The image lies from 1 MiB on; 16 MiB from there are available.
abbrev low_entry : MmapEntry
low_entry = record { addr = 0; len = 0x9f000; kind = 1 }

abbrev high_entry : MmapEntry
high_entry = record { addr = 0x100_0000; len = 0x3000; kind = 1 }

abbrev entries : List MmapEntry
entries = low_entry ∷ high_entry ∷ []

init_pages-FreeList_example :
    (last_page : ℕ) × (m' : MemPages) × (init_pages 0x10_0000 0x14_0000 entries four
      ≡ some (last_page, m'))
    × FreeList m' (0x1002 ∷ 0x1003 ∷ 0x1004 ∷ [])
unfolding entry_addrs init_totals region_addrs usable
init_pages-FreeList_example =
    init_pages-FreeList 0x10_0000 0x14_0000 entries four (omega arith) (omega arith)
      (refl, (refl, (refl, tt))) (λ e. cc)
