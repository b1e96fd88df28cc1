-- ===== src/Pages/Setup/Available.antt =====
-- `CollectAvailable` as a whole: from a memory map to the free list.
use chestnut.Base.{
  ℕ, ◌+◌, ◌*◌, ◌/◌, ◌^◌, ◌-◌, ◌≤◌, ◌≡◌, ◌≢◌, refl, ◌∙◌, Bool, not, ◌||◌, some, List, [], ◌∷◌, ◌++◌,
  map, inl, inr, arith, ◌==◌, if◌then◌else◌, Bool-cases, Option-cases, Distinct,
}
use chestnut.Pages.{MemPages, page_size, page_base, page_align, page, page_head}
use chestnut.Pages.FreeList.{FreeList}
use chestnut.Pages.Setup.{
  MmapEntry, memory_available, add64, collect_region, collect_entries, collect_available, wipe,
  sizeof_page, boot_loader_skip_pages,
}
use chestnut.Pages.Setup.Collect.{
  usable, collect_all, collect_all-append, collect_all-Built, region_addrs,
  collect_region-collect_all, InArray, Built,
}

-- An entry that the loop passes over.
abbrev pub skipped : MmapEntry → Bool
skipped e = not (e.kind == memory_available) || (e.addr == 0)

-- The addresses of the pages of all available regions, in order.
unfoldable pub entry_addrs : List MmapEntry → List ℕ
entry_addrs [] = []
entry_addrs (e ∷ es) =
    if skipped e
    then entry_addrs es
    else region_addrs ((e.len + (page_size - 1)) / page_size) e.addr ++ entry_addrs es

-- No available region ends within a page of the top of the address space.
abbrev pub RegionsFit : List MmapEntry → Type 0
RegionsFit [] = Unit {0}
RegionsFit (e ∷ es) = (e.addr + e.len + page_size ≤ 2 ^ 64) × RegionsFit es

module _ (kstart_pg kend : ℕ) where
  region-collect_all :
      (e : MmapEntry) (st : ℕ × MemPages)
      → e.addr + e.len + page_size ≤ 2 ^ 64
      → collect_region kstart_pg kend (e.len / page_size + 2) e.addr (add64 e.addr e.len) st
        ≡ collect_all kstart_pg kend
            (region_addrs ((e.len + (page_size - 1)) / page_size) e.addr)
            st
  region-collect_all e st fits =
      let end : add64 e.addr e.len ≡ e.addr + e.len = omega arith in
      rw end (
        collect_region-collect_all kstart_pg kend (e.len / page_size + 2)
          ((e.len + (page_size - 1)) / page_size) e.addr (e.addr + e.len) st (omega arith)
          (omega arith) (omega arith) fits)

  collect_entries-collect_all :
      (es : List MmapEntry) (st : ℕ × MemPages)
      → RegionsFit es
      → collect_entries kstart_pg kend es st ≡ collect_all kstart_pg kend (entry_addrs es) st
  unfolding collect_entries collect_all entry_addrs
  collect_entries-collect_all [] st fit = refl
  collect_entries-collect_all (e ∷ es) st fit = elim (Bool-cases (skipped e)) [
    | inl skip ↦ rw skip (collect_entries-collect_all es st fit.1)
    | inr region ↦
        rw
          (
            region,
            region-collect_all e st fit.0,
            collect_all-append kstart_pg kend
                (region_addrs ((e.len + (page_size - 1)) / page_size) e.addr) (entry_addrs es) st,
          )
          (elim (Option-cases (
            collect_all kstart_pg kend (region_addrs ((e.len + (page_size - 1)) / page_size) e.addr)
              st)) [
                | inl e ↦ rw e
                | inr (st', e) ↦ rw e (collect_entries-collect_all es st' fit.1)
              ])
  ]

-- Where the first page of the kernel's own memory is, and where that memory ends.
abbrev pub kernel_start : ℕ → ℕ
kernel_start load_start = page_base load_start

abbrev pub kernel_end : ℕ → ℕ → ℕ
kernel_end bss_end nr = page_align bss_end + boot_loader_skip_pages * page_size + sizeof_page * nr

-- The pages that are to be free: those of the available regions outside the kernel.
abbrev pub collected : ℕ → ℕ → ℕ → List MmapEntry → List ℕ
collected load_start bss_end nr es =
    usable (kernel_start load_start) (kernel_end bss_end nr) (entry_addrs es)

wipe-Built : (m : MemPages) → Built page_head (wipe m) []
unfolding wipe
wipe-Built m = record { linked = refl; free = λ i h. ground arith; listed = λ i h. ground arith }

Built-FreeList :
    (last_page : ℕ) (m : MemPages) (xs : List ℕ) → Built last_page m xs → xs ≢ [] → FreeList m xs
Built-FreeList last_page m [] b some_page = absurd (some_page refl)
Built-FreeList last_page m (x ∷ xs) b some_page = record {
  ring = b.linked.0;
  free = b.free;
  listed = b.listed;
}

-- On a memory map whose available pages are distinct and have their `Page` in the array, no
-- assertion fails, and the free list holds the pages outside the kernel, in order, if there is any.
pub collect_available-FreeList :
    (load_start bss_end : ℕ) (es : List MmapEntry) (m : MemPages)
    → RegionsFit es
    → InArray m.nr_page_structs (entry_addrs es)
    → Distinct (map page (entry_addrs es))
    → collected load_start bss_end m.nr_page_structs es ≢ []
    → (last_page : ℕ) × (m' : MemPages) × (collect_available load_start bss_end es m
        ≡ some (last_page, m'))
      × FreeList m' (collected load_start bss_end m.nr_page_structs es)
unfolding collect_available wipe
collect_available-FreeList load_start bss_end es m fit inside d some_page =
    let ks = kernel_start load_start in
    let ke = kernel_end bss_end m.nr_page_structs in
    let (l, m', e, b) =
      collect_all-Built ks ke (entry_addrs es) page_head (wipe m) [] (wipe-Built m) inside d
        (λ p i. refl) in
    (
      l,
      m',
      collect_entries-collect_all ks ke es (page_head, wipe m) fit ∙ e,
      Built-FreeList l m' _ b some_page,
    )
