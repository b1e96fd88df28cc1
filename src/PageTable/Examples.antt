-- ===== src/PageTable/Examples.antt =====
-- The page table theorems at concrete addresses.
use chestnut.Base.{arith, true, false}
use chestnut.PageTable.{large_entry, small_entry}
use chestnut.PageTable.Entry.{IsEntry, entries-IsEntry}

entries-IsEntry_example :
    IsEntry (large_entry 2097152 true) 2097152 true true
    × IsEntry (small_entry 2097152 true) 2097152 false true
entries-IsEntry_example = entries-IsEntry 2097152 true (omega arith) (omega arith)
