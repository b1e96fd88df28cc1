-- ===== src/Pages/Setup.antt =====
-- `MemPages::Init` and `MemPages::CollectAvailable` of kern/mm/allocator.cc, over the memory map
-- of kern/multiboot2.h. The addresses of the kernel image are parameters: the linker sets them.
pub mod Collect
pub mod Available
pub mod Totals
use chestnut.Base.{
  ℕ, zero, suc, ◌+◌, ◌*◌, ◌/◌, ◌%◌, ◌^◌, Bool, true, false, not, ◌&&◌, ◌||◌, Option, none, some,
  List, [], ◌∷◌, ltb, leb, ◌==◌, if◌then◌else◌, store,
}
use chestnut.Links.{Links, set_next, set_prev}
use chestnut.Pages.{
  MemPages, page_size, page_num, page_base, page_align, page_head, page_at, page, mark,
}

-- `struct multiboot_mmap_entry`.
pub record MmapEntry : Type 0 where
  pub addr : ℕ
  pub len : ℕ
  pub kind : ℕ

abbrev pub memory_available : ℕ
memory_available = 1

abbrev pub memory_reserved : ℕ
memory_reserved = 2

abbrev pub memory_acpi_reclaimable : ℕ
memory_acpi_reclaimable = 3

-- Addition of 64-bit words.
abbrev pub add64 : ℕ → ℕ → ℕ
add64 a b = (a + b) % 2 ^ 64

abbrev pub max64 : ℕ → ℕ → ℕ
max64 a b = if ltb b a then a else b

-- The sums that `Init` keeps by the kind of an entry.
unfoldable pub count_entry : MmapEntry → MemPages → MemPages
count_entry e m =
    if e.kind == memory_available
    then (if e.addr == 0
        then record m { avail_low = e.len }
        else record m { avail_size = add64 m.avail_size e.len })
    else if e.kind == memory_reserved
    then record m { reserved_size = add64 m.reserved_size e.len }
    else if e.kind == memory_acpi_reclaimable
    then record m { acpi_size = add64 m.acpi_size e.len }
    else m

-- `max_kern_mem` after an entry.
unfoldable pub kern_mem : MmapEntry → ℕ → ℕ
kern_mem e max_kern_mem =
    if (e.kind == memory_available) && not (e.addr == 0)
    then max64 max_kern_mem (add64 e.addr e.len)
    else max_kern_mem

-- The loop of `Init`.
unfoldable pub init_totals : List MmapEntry → ℕ → MemPages → MemPages
unfolding count_entry kern_mem
init_totals [] max_kern_mem m = m
init_totals (e ∷ es) max_kern_mem m =
    let top = kern_mem e max_kern_mem in
    let m' = count_entry e m in
    init_totals es top (record m' {
      tot_size = add64 m'.tot_size e.len;
      max_phy = max64 m'.max_phy (add64 e.addr e.len);
      nr_page_structs = top / page_size;
    })

-- `sizeof(Page)`.
abbrev pub sizeof_page : ℕ
sizeof_page = 48

abbrev pub boot_loader_skip_pages : ℕ
boot_loader_skip_pages = 128

-- `memset(page_structs, 0, struct_tot_sz)` on one field of the pages.
abbrev pub wiped {ℓ} : {A : Type ℓ} → ℕ → A → (ℕ → A) → ℕ → A
wiped nr z f p = if leb 2 p && ltb p (page_at nr) then z else f p

unfoldable pub wipe : MemPages → MemPages
wipe m = record m {
  links = record {
    prev = wiped m.nr_page_structs 0 m.links.prev;
    next = wiped m.nr_page_structs 0 m.links.next;
  };
  phyaddr = wiped m.nr_page_structs 0 m.phyaddr;
  is_free = wiped m.nr_page_structs false m.is_free;
  is_in_list = wiped m.nr_page_structs false m.is_in_list;
  slab_ptr = wiped m.nr_page_structs 0 m.slab_ptr;
  slab_obj_size = wiped m.nr_page_structs 0 m.slab_obj_size;
}

-- The writes that put a page at the end of the list, behind `last_page`.
unfoldable pub push_back : ℕ → ℕ → Links → Links
push_back pg last_page s =
    let s = set_next s pg page_head in
    let s = set_prev s pg last_page in let s = set_prev s page_head pg in set_next s last_page pg

module _ (kstart_pg kend : ℕ) where
  -- `paddr` lies in the kernel image, the boot loader's data or the page structs.
  abbrev pub in_kernel : ℕ → Bool
  in_kernel paddr = leb kstart_pg paddr && ltb paddr kend

  -- The body of the inner loop. The state is `last_page` and the pages; `none` is a failed
  -- `kassert`, which halts the machine.
  unfoldable pub collect_page : ℕ → ℕ × MemPages → Option (ℕ × MemPages)
  collect_page paddr (last_page, m) =
      let pg = page paddr in
      let m = record m { phyaddr = store m.phyaddr pg (page_base paddr) } in
      if not (ltb (page_num paddr) m.nr_page_structs)
      then none
      else if in_kernel paddr
      then some (last_page, mark pg false m)
      else some (pg, mark pg true (record m { links = push_back pg last_page m.links }))

  -- The inner loop, with fuel: `none` also stands for fuel that has run out.
  unfoldable pub collect_region : ℕ → ℕ → ℕ → ℕ × MemPages → Option (ℕ × MemPages)
  collect_region zero paddr end st = none
  collect_region (suc fuel) paddr end st = elim (ltb paddr end) [
    | true ↦ elim (collect_page paddr st) [
      | none ↦ none
      | some st' ↦ collect_region fuel (add64 paddr page_size) end st'
    ]
    | false ↦ some st
  ]

  -- The outer loop. A region of `len` bytes takes at most `len / 4096 + 1` rounds.
  unfoldable pub collect_entries : List MmapEntry → ℕ × MemPages → Option (ℕ × MemPages)
  collect_entries [] st = some st
  collect_entries (e ∷ es) st =
      if not (e.kind == memory_available) || (e.addr == 0)
      then collect_entries es st
      else elim (collect_region (e.len / page_size + 2) e.addr (add64 e.addr e.len) st) [
        | none ↦ none
        | some st' ↦ collect_entries es st'
      ]

-- `load_start` and `bss_end` are the addresses of the linker's symbols.
unfoldable pub collect_available : ℕ → ℕ → List MmapEntry → MemPages → Option (ℕ × MemPages)
collect_available load_start bss_end entries m =
    let kend_pg = page_align bss_end + boot_loader_skip_pages * page_size in
    collect_entries (page_base load_start) (kend_pg + sizeof_page * m.nr_page_structs) entries
      (page_head, wipe m)

-- `Init`: the totals, and then the free list.
unfoldable pub init_pages : ℕ → ℕ → List MmapEntry → MemPages → Option (ℕ × MemPages)
init_pages load_start bss_end entries m =
    collect_available load_start bss_end entries (init_totals entries 0 m)
