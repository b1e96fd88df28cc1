-- ===== src/PageTable/Kernel/Range.antt =====
-- The loop of `MapPagesToPageTable` puts the mappings of its range in the tables, one after the other.
use chestnut.Base.{ℕ, Option, none, some, List, [], ◌∷◌}
use chestnut.PageTable.{Mapping}
use chestnut.PageTable.Walk.{Tables}
use chestnut.PageTable.Kernel.{and_then, put_mapping}

-- Mappings put in the tables one after the other.
pub put_all : ℕ → ℕ → List Mapping → Tables → Option Tables
put_all kern_offset kern_entry [] s = some s
put_all kern_offset kern_entry (m ∷ ms) s =
    and_then (put_mapping kern_offset kern_entry m s) (put_all kern_offset kern_entry ms)

put_listed : ℕ → ℕ → Option (List Mapping) → Tables → Option Tables
put_listed kern_offset kern_entry none s = none
put_listed kern_offset kern_entry (some ms) s = put_all kern_offset kern_entry ms s
