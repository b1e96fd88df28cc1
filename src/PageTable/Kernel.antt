-- ===== src/PageTable/Kernel.antt =====
-- The page table of the kernel (kern/page-table.cc): the one that it boots with, the loop of
-- `MapPagesToPageTable`, and the one that `InitKernelPageTable` installs. `kern_offset` is the
-- address `_virt_base` of the linker.
pub mod Boot
pub mod Range
pub mod Install
mod Examples
use chestnut.Base.{
  ℕ, zero, suc, ◌+◌, ◌-◌, ◌*◌, ◌%◌, ◌^◌, Bool, true, false, Option, none, some, List, [], ◌∷◌, ltb,
  ◌==◌, if◌then◌else◌, store,
}
use chestnut.Pages.{page_size}
use chestnut.Pages.Setup.{MmapEntry, memory_available}
use chestnut.PageTable.{
  huge_page_size, large_page_size, set_flag, new_entry, physical_address, Mapping, next_mapping,
}
use chestnut.PageTable.Walk.{Tables, slot, allocate_or_present, put}

-- `KERN_OFFSET + paddr`.
unfoldable pub kern_address : ℕ → ℕ → ℕ
kern_address kern_offset paddr = (kern_offset + paddr) % 2 ^ 64

-- The table that the entry for an address leads to, as `operator[]` finds it.
unfoldable pub next_table : (ℕ → ℕ) → ℕ → ℕ → ℕ → ℕ
next_table words table level vaddr = physical_address (words (slot table level vaddr))

-- `kernel_pgt[vaddr][vaddr][vaddr]`, as an address.
unfoldable pub large_slot : (ℕ → ℕ) → ℕ → ℕ → ℕ
large_slot words cr3 vaddr =
    let pdpt = next_table words (physical_address cr3) 3 vaddr in
    let pd = next_table words pdpt 2 vaddr in slot pd 1 vaddr

-- The entry of `InitBootPageTable`: huge, present and writable.
unfoldable pub boot_entry : ℕ → ℕ
boot_entry paddr = set_flag true 1 (set_flag true 0 (set_flag true 7 (new_entry paddr)))

-- The loop of `InitBootPageTable`, with `left` rounds to go.
unfoldable pub map_boot : ℕ → ℕ → ℕ → ℕ → (ℕ → ℕ) → ℕ → ℕ
map_boot zero kern_offset cr3 base_addr words = words
map_boot (suc left) kern_offset cr3 base_addr words =
    let loc = large_slot words cr3 (kern_address kern_offset base_addr) in
    map_boot left kern_offset cr3 (base_addr + large_page_size)
      (store words loc (boot_entry base_addr))

unfoldable pub init_boot_page_table : ℕ → ℕ → (ℕ → ℕ) → ℕ → ℕ
init_boot_page_table kern_offset cr3 words = map_boot 512 kern_offset cr3 0 words

-- The table that a mapping's entry belongs in: of level 2, 1 or 0.
unfoldable pub level_of : ℕ → ℕ
level_of size = if size == huge_page_size then 2 else if size == large_page_size then 1 else 0

-- `kern_entry.AllocateOrPresent()[vaddr]...AllocateOrPresent()[vaddr] = entry`, where `kern_entry` is
-- at an address.
unfoldable pub put_mapping : ℕ → ℕ → Mapping → Tables → Option Tables
put_mapping kern_offset kern_entry m s = elim (allocate_or_present kern_entry s) [
  | none ↦ none
  | some s' ↦
      put (level_of m.size) (2 - level_of m.size) (physical_address (s'.words kern_entry))
        (kern_address kern_offset m.addr) m.entry s'
]

-- What comes behind a step, where the step succeeds.
unfoldable pub and_then : Option Tables → (Tables → Option Tables) → Option Tables
and_then none next = none
and_then (some s) next = next s

-- The loop of `MapPagesToPageTable`, for at most `fuel` rounds, from `addr` up to `finish`.
unfoldable pub map_range : ℕ → ℕ → ℕ → Bool → Bool → ℕ → ℕ → Tables → Option Tables
map_range zero kern_offset kern_entry skip write_through finish addr s =
    if ltb addr finish then none else some s
map_range (suc fuel) kern_offset kern_entry skip write_through finish addr s =
    let m = next_mapping skip write_through finish addr in
    elim (ltb addr finish) [
      | false ↦ some s
      | true ↦ and_then (put_mapping kern_offset kern_entry m s) (
          map_range fuel kern_offset kern_entry skip write_through finish
            ((addr + m.size) % 2 ^ 64))
    ]

-- The loop of `InitKernelPageTable` over the entries of the memory map.
unfoldable pub map_entries : ℕ → ℕ → ℕ → List MmapEntry → Tables → Option Tables
map_entries fuel kern_offset kern_entry [] s = some s
map_entries fuel kern_offset kern_entry (e ∷ entries) s =
    let available = e.kind == memory_available in
    let mapped =
      if e.addr % page_size == 0
      then map_range fuel kern_offset kern_entry available (if available then false else true)
          ((e.addr + e.len) % 2 ^ 64) e.addr s
      else some s in
    and_then mapped (map_entries fuel kern_offset kern_entry entries)

-- `kernel_pgt[0].Clear()` and `kernel_pgt[KERN_OFFSET] = kern_entry`.
unfoldable pub install_entry : ℕ → ℕ → ℕ → (ℕ → ℕ) → ℕ → ℕ
install_entry kern_offset cr3 entry words =
    let cleared = store words (slot (physical_address cr3) 3 0) 0 in
    store cleared (slot (physical_address cr3) 3 kern_offset) entry

-- `InitKernelPageTable`, up to the load of cr3; `kern_entry` is the address of the local variable.
-- The panic at more than 512 GB is `none`.
unfoldable pub init_kernel_page_table : ℕ → ℕ → ℕ → ℕ → ℕ → List MmapEntry → Tables → Option Tables
init_kernel_page_table fuel kern_offset cr3 kern_entry max_physical_addr entries s =
    let start = record s { words = store s.words kern_entry 0 } in
    if ltb (512 * 2 ^ 30) max_physical_addr
    then none
    else elim (map_entries fuel kern_offset kern_entry entries start) [
      | none ↦ none
      | some s' ↦
          some (record s' { words = install_entry kern_offset cr3 (s'.words kern_entry) s'.words })
    ]
