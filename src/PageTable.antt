-- ===== src/PageTable.antt =====
-- kern/page-table.h and kern/page-table.cc: the entries, and the mappings of a range.
pub mod Flags
pub mod Entry
pub mod Ranges
pub mod Walk
pub mod Kernel
mod Examples
use Prim.Native.Nat.{bit_and, bit_or}
use chestnut.Base.{
  ℕ, zero, suc, ◌+◌, ◌-◌, ◌*◌, ◌/◌, ◌%◌, ◌^◌, Bool, true, false, ◌&&◌, not, Option, none, some,
  List, [], ◌∷◌, ltb, leb, ◌==◌, if◌then◌else◌,
}
use chestnut.Pages.{page_size}

abbrev pub huge_page_size : ℕ
huge_page_size = 2 ^ 30

abbrev pub large_page_size : ℕ
large_page_size = 2 ^ 21

-- `set_flag` and `get_flag` of `CommonBaseEntry`.
unfoldable pub set_flag : Bool → ℕ → ℕ → ℕ
set_flag b bit entry = if b then bit_or entry (2 ^ bit) else bit_and entry (2 ^ 64 - 1 - 2 ^ bit)

unfoldable pub get_flag : ℕ → ℕ → Bool
get_flag bit entry = not (bit_and entry (2 ^ bit) == 0)

-- The constructor from a physical address: present and writable.
unfoldable pub new_entry : ℕ → ℕ
new_entry paddr = set_flag true 1 (set_flag true 0 paddr)

-- `set_huge` is bit 7, `set_write_through` bit 3.
unfoldable pub large_entry : ℕ → Bool → ℕ
large_entry paddr write_through = set_flag write_through 3 (set_flag true 7 (new_entry paddr))

unfoldable pub small_entry : ℕ → Bool → ℕ
small_entry paddr write_through = set_flag write_through 3 (new_entry paddr)

-- `physical_address()`.
unfoldable pub physical_address : ℕ → ℕ
physical_address entry = bit_and entry (2 ^ 64 - 1 - 511)

-- An entry that the loop of `MapPagesToPageTable` puts in the table, and the size that it maps,
-- which says at which level: 1 GB, 2 MB or 4 kB.
pub record Mapping : Type 0 where
  pub addr : ℕ
  pub size : ℕ
  pub entry : ℕ

-- One round of the loop, at `addr`.
unfoldable pub next_mapping : Bool → Bool → ℕ → ℕ → Mapping
next_mapping skip write_through finish addr =
    if skip && ((addr % huge_page_size == 0) && leb ((addr + huge_page_size) % 2 ^ 64) finish)
    then record { addr = addr; size = huge_page_size; entry = large_entry addr write_through }
    else if skip
        && ((addr % large_page_size == 0) && leb ((addr + large_page_size) % 2 ^ 64) finish)
    then record { addr = addr; size = large_page_size; entry = large_entry addr write_through }
    else record { addr = addr; size = page_size; entry = small_entry addr write_through }

-- The loop, for at most `fuel` rounds; `none` when they are not enough.
unfoldable pub map_pages : ℕ → Bool → Bool → ℕ → ℕ → Option (List Mapping)
map_pages zero skip write_through finish addr = if ltb addr finish then none else some []
map_pages (suc fuel) skip write_through finish addr =
    let m = next_mapping skip write_through finish addr in
    let rest = map_pages fuel skip write_through finish ((addr + m.size) % 2 ^ 64) in
    if ltb addr finish then elim rest [ none ↦ none | some ms ↦ some (m ∷ ms) ] else some []
