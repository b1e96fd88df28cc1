-- ===== src/Pages.antt =====
-- The physical page allocator of kern/mm/allocator.cc and allocator.h.
-- A pointer to a `Page` is a number: 0 is NULL, 1 is `&page_head`, and `i + 2` is
-- `&page_structs[i]`. Each field of the pages is a memory indexed by that pointer; `alloc_prev` and
-- `alloc_next` are the two memories of `Links`.
pub mod FreeList
pub mod Scan
pub mod Run
pub mod Return
pub mod Setup
mod Examples
use chestnut.Base.{
  ℕ, zero, suc, ◌+◌, ◌-◌, ◌*◌, ◌/◌, ◌%◌, ◌^◌, Bool, true, false, not, ◌&&◌, ◌||◌, Option, none,
  some, List, [], ◌∷◌, ltb, leb, ◌==◌, if◌then◌else◌, store,
}
use chestnut.Links.{Links, set_next, set_prev, delete}

abbrev pub page_size : ℕ
page_size = 4096

-- `PGNUM`, `PG` and `PGALIGN`. The last rounds up: `((addr - 1) | PAGEMASK) + 1` on 64 bits.
abbrev pub page_num : ℕ → ℕ
page_num addr = addr / page_size

abbrev pub page_base : ℕ → ℕ
page_base addr = page_num addr * page_size

abbrev pub page_align : ℕ → ℕ
page_align addr = (page_base ((addr + 2 ^ 64 - 1) % 2 ^ 64) + page_size) % 2 ^ 64

abbrev pub null : ℕ
null = 0

abbrev pub page_head : ℕ
page_head = 1

-- `&page_structs[i]`.
abbrev pub page_at : ℕ → ℕ
page_at i = i + 2

pub record MemPages : Type 0 where
  pub avail_size : ℕ
  pub reserved_size : ℕ
  pub acpi_size : ℕ
  pub tot_size : ℕ
  pub avail_low : ℕ
  pub max_phy : ℕ
  pub nr_page_structs : ℕ
  pub links : Links
  pub phyaddr : ℕ → ℕ
  pub is_free : ℕ → Bool
  pub is_in_list : ℕ → Bool
  pub slab_ptr : ℕ → ℕ
  pub slab_obj_size : ℕ → ℕ

-- `page(addr)`.
abbrev pub page : ℕ → ℕ
page addr = page_at (page_num addr)

-- `pg->is_free = b; pg->is_in_list = b;`
unfoldable pub mark : ℕ → Bool → MemPages → MemPages
mark pg b m = record m { is_free = store m.is_free pg b; is_in_list = store m.is_in_list pg b }

-- The writes to the list in `AllocPage`: the page behind `page_head` is dropped.
unfoldable pub pop_front : Links → Links
pop_front s =
    let allocated = s.next page_head in
    let s = set_next s page_head (s.next allocated) in set_prev s (s.next page_head) page_head

-- The writes to the list in `FreePage` and in each round of `FreePages`.
unfoldable pub push_front : ℕ → Links → Links
push_front pg s =
    let s = set_next s pg (s.next page_head) in
    let s = set_prev s (s.next page_head) pg in
    let s = set_next s page_head pg in set_prev s pg page_head

unfoldable pub alloc_page : MemPages → Option ℕ × MemPages
alloc_page m = if m.links.next page_head == m.links.prev page_head then (none, m) else (
  some (m.links.next page_head),
  mark (m.links.next page_head) false (record m { links = pop_front m.links }),
)

unfoldable pub free_page : ℕ → MemPages → MemPages
free_page pg m = mark pg true (record m { links = push_front pg m.links })

-- The first loop of `AllocPages`, at index `i` with `left` pages to go. `start` is `none` for -1.
-- `nr_page_structs - n` is a subtraction of 64-bit words.
module _ (is_free : ℕ → Bool) (nr_page_structs n : ℕ) where
  unfoldable pub scan : ℕ → ℕ → Option ℕ → Option ℕ
  scan zero i start = start
  scan (suc left) i start =
      let skip = scan left (i + 1) none in
      let begin = scan left (i + 1) (some i) in
      let go_on = scan left (i + 1) start in
      if not (is_free (page_at i)) then skip else elim start [
        | none ↦
            if ltb ((nr_page_structs + 2 ^ 64 - n) % 2 ^ 64) i
            then none
            else if i + 1 == i + n
            then some i
            else begin
        | some s ↦ if i + 1 == s + n then some s else go_on
      ]

-- The second loop of `AllocPages`: `count` pages from `page_structs[i]` on leave the list.
unfoldable pub take_run : ℕ → ℕ → MemPages → MemPages
take_run zero i m = m
take_run (suc count) i m =
    take_run count (i + 1)
      (mark (page_at i) false (record m { links = delete (page_at i) m.links }))

-- What the result of the scan leads to.
unfoldable pub take_found : ℕ → MemPages → Option ℕ → Option ℕ × MemPages
take_found n m none = (none, m)
take_found n m (some start) = (some (page_at start), take_run n start m)

unfoldable pub alloc_pages : ℕ → MemPages → Option ℕ × MemPages
alloc_pages n m =
    if n == 1
    then alloc_page m
    else take_found n m (scan m.is_free m.nr_page_structs n m.nr_page_structs 0 none)

-- The loop of `FreePages`: `count` pages from `pg` on join the list.
unfoldable pub give_run : ℕ → ℕ → MemPages → MemPages
give_run zero pg m = m
give_run (suc count) pg m =
    give_run count (pg + 1) (mark pg true (record m { links = push_front pg m.links }))

unfoldable pub free_pages : ℕ → ℕ → MemPages → MemPages
free_pages pg n m = if n == 1 then free_page pg m else give_run n pg m
