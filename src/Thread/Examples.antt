-- ===== src/Thread/Examples.antt =====
-- A thread whose context is saved, and a processor that restores it.
use chestnut.Base.{store, ◌+◌, ◌*◌}
use chestnut.Thread.{Cpu, save_context}

abbrev thread : Cpu
thread = record { regs = λ r. r * 8 + 8000; rip = 64; memory = λ a. a + 1 }

abbrev base_set : Cpu
base_set = record thread { regs = store thread.regs 8 16384 }

-- The address is in `r8` where it is saved, and in `r10` where it is restored.
abbrev other : Cpu
other = record { regs = λ r. 16384; rip = 0; memory = (save_context 8 base_set).memory }
