-- ===== src/Pages/Setup/Totals.antt =====
-- The totals of `MemPages::Init`, and that the array has a `Page` for every available page.
use chestnut.Base.{
  ℕ, zero, suc, ◌+◌, ◌/◌, ◌%◌, ◌^◌, ◌≤◌, ◌<◌, ◌≡◌, ◌≢◌, refl, Bool, true, false, not, ◌&&◌, some,
  List, [], ◌∷◌, ◌++◌, map, inl, inr, arith, ◌==◌, if◌then◌else◌, Bool-cases, Distinct,
}
use chestnut.Pages.{MemPages, page_size, page_num, page}
use chestnut.Pages.FreeList.{FreeList}
use chestnut.Pages.Setup.{
  MmapEntry, memory_available, memory_reserved, memory_acpi_reclaimable, add64, max64, count_entry,
  kern_mem, init_totals, init_pages,
}
use chestnut.Pages.Setup.Collect.{region_addrs, InArray}
use chestnut.Pages.Setup.Available.{
  skipped, entry_addrs, RegionsFit, collected, collect_available-FreeList,
}

-- The bytes of the entries that a test picks, as a plain sum.
unfoldable pub bytes_of : (MmapEntry → Bool) → List MmapEntry → ℕ
bytes_of pick [] = 0
bytes_of pick (e ∷ es) = (if pick e then e.len else 0) + bytes_of pick es

abbrev pub usable_entry : MmapEntry → Bool
usable_entry e = (e.kind == memory_available) && not (e.addr == 0)

abbrev pub of_kind : ℕ → MmapEntry → Bool
of_kind kind e = e.kind == kind

abbrev pub any_kind : MmapEntry → Bool
any_kind e = true

-- What one entry adds to the three sums by kind.
count_entry-parts :
    (e : MmapEntry) (m : MemPages)
    → m.avail_size + m.reserved_size + m.acpi_size + e.len < 2 ^ 64
    → ((count_entry e m).avail_size ≡ m.avail_size + (if usable_entry e then e.len else 0))
      × ((count_entry e m).reserved_size
          ≡ m.reserved_size + (if of_kind memory_reserved e then e.len else 0))
      × ((count_entry e m).acpi_size
          ≡ m.acpi_size + (if of_kind memory_acpi_reclaimable e then e.len else 0))
      × ((count_entry e m).tot_size ≡ m.tot_size)
unfolding init_totals
count_entry-parts e m small = ground arith

one_kind :
    (e : MmapEntry)
    → (if usable_entry e then e.len else 0)
        + (if of_kind memory_reserved e then e.len else 0)
        + (if of_kind memory_acpi_reclaimable e then e.len else 0)
      ≤ e.len
one_kind e = ground arith

-- As long as the sizes add up to less than 2^64, the totals are the sums of the entries' sizes.
pub init_totals-bytes_of :
    (es : List MmapEntry) (top : ℕ) (m : MemPages)
    → m.tot_size + bytes_of any_kind es < 2 ^ 64
    → m.avail_size + m.reserved_size + m.acpi_size ≤ m.tot_size
    → ((init_totals es top m).tot_size ≡ m.tot_size + bytes_of any_kind es)
      × ((init_totals es top m).avail_size ≡ m.avail_size + bytes_of usable_entry es)
      × ((init_totals es top m).reserved_size
          ≡ m.reserved_size + bytes_of (of_kind memory_reserved) es)
      × ((init_totals es top m).acpi_size
          ≡ m.acpi_size + bytes_of (of_kind memory_acpi_reclaimable) es)
unfolding init_totals bytes_of
init_totals-bytes_of [] top m small parts = omega arith
init_totals-bytes_of (e ∷ es) top m small parts =
    let step = count_entry-parts e m (omega arith) in
    let rest =
      init_totals-bytes_of es (kern_mem e top)
        (record (count_entry e m) {
          tot_size = add64 (count_entry e m).tot_size e.len;
          max_phy = max64 (count_entry e m).max_phy (add64 e.addr e.len);
          nr_page_structs = kern_mem e top / page_size;
        })
        (omega (arith, step)) (omega (arith, step, one_kind e)) in
    omega (arith, step, rest)

-- The largest end of an available region, from `top` on.
kern_top : List MmapEntry → ℕ → ℕ
kern_top [] top = top
kern_top (e ∷ es) top = kern_top es (kern_mem e top)

kern_top-ge : (es : List MmapEntry) (top : ℕ) → top ≤ kern_top es top
unfolding kern_top init_totals
kern_top-ge [] top = omega arith
kern_top-ge (e ∷ es) top = ground (arith, kern_top-ge es (kern_mem e top))

nr-init_totals :
    (e : MmapEntry) (es : List MmapEntry) (top : ℕ) (m : MemPages)
    → (init_totals (e ∷ es) top m).nr_page_structs ≡ kern_top (e ∷ es) top / page_size
unfolding init_totals kern_top
nr-init_totals e [] top m = refl
nr-init_totals e (e' ∷ es) top m = nr-init_totals e' es (kern_mem e top) _

-- Every region starts and ends at a page.
abbrev pub RegionsAligned : List MmapEntry → Type 0
RegionsAligned [] = Unit {0}
RegionsAligned (e ∷ es) = (e.addr % page_size ≡ 0) × (e.len % page_size ≡ 0) × RegionsAligned es

InArray-append : (nr : ℕ) (xs ys : List ℕ) → InArray nr xs → InArray nr ys → InArray nr (xs ++ ys)
InArray-append nr [] ys h k = k
InArray-append nr (x ∷ xs) ys h k = (h.0, InArray-append nr xs ys h.1 k)

region_addrs-InArray :
    (nr rounds a : ℕ) → page_num a + rounds ≤ nr → InArray nr (region_addrs rounds a)
unfolding region_addrs
region_addrs-InArray nr zero a h = tt
region_addrs-InArray nr (suc rounds) a h =
    (omega arith, region_addrs-InArray nr rounds (a + page_size) (omega arith))

kern_mem-ge :
    (e : MmapEntry) (top : ℕ)
    → skipped e ≡ false
    → e.addr + e.len + page_size ≤ 2 ^ 64
    → e.addr + e.len ≤ kern_mem e top
unfolding init_totals
kern_mem-ge e top region fit = ground arith

entry_addrs-InArray :
    (nr : ℕ) (es : List MmapEntry) (top : ℕ)
    → RegionsFit es
    → RegionsAligned es
    → kern_top es top / page_size ≤ nr
    → InArray nr (entry_addrs es)
unfolding entry_addrs kern_top
entry_addrs-InArray nr [] top fit al h = tt
entry_addrs-InArray nr (e ∷ es) top fit al h = elim (Bool-cases (skipped e)) [
  | inl skip ↦ rw skip (entry_addrs-InArray nr es (kern_mem e top) fit.1 al.2 h)
  | inr region ↦ rw region (
      InArray-append nr _ (entry_addrs es)
        (region_addrs-InArray nr _ e.addr (
          omega
            (arith, kern_top-ge es (kern_mem e top), kern_mem-ge e top region fit.0, al.0, al.1)))
        (entry_addrs-InArray nr es (kern_mem e top) fit.1 al.2 h))
]

-- `nr_page_structs` as `Init` leaves it.
abbrev pub nr_after : List MmapEntry → MemPages → ℕ
nr_after es m = (init_totals es 0 m).nr_page_structs

init-InArray :
    (es : List MmapEntry) (m : MemPages)
    → RegionsFit es
    → RegionsAligned es
    → InArray (nr_after es m) (entry_addrs es)
unfolding entry_addrs
init-InArray [] m fit al = tt
init-InArray (e ∷ es) m fit al =
    entry_addrs-InArray (nr_after (e ∷ es) m) (e ∷ es) 0 fit al
      (omega (arith, nr-init_totals e es 0 m))

-- `Init` on a memory map of whole, distinct pages, some of them outside the kernel: no assertion
-- fails, and the free list holds exactly those pages.
pub init_pages-FreeList :
    (load_start bss_end : ℕ) (es : List MmapEntry) (m : MemPages)
    → RegionsFit es
    → RegionsAligned es
    → Distinct (map page (entry_addrs es))
    → collected load_start bss_end (nr_after es m) es ≢ []
    → (last_page : ℕ) × (m' : MemPages) × (init_pages load_start bss_end es m
        ≡ some (last_page, m'))
      × FreeList m' (collected load_start bss_end (nr_after es m) es)
unfolding init_pages
init_pages-FreeList load_start bss_end es m fit al d some_page =
    collect_available-FreeList load_start bss_end es (init_totals es 0 m) fit
      (init-InArray es m fit al) d some_page
