-- ===== src/Irqs/Context/Examples.antt =====
-- Registers saved on a stack, and restored after a handler that clears them.
use chestnut.Base.{◌+◌, ◌≡◌, refl, arith, false}
use chestnut.Irqs.Context.{Machine, save_context, restore_context}
use chestnut.Irqs.Context.Stack.{WordsAt}
use chestnut.Irqs.Context.Laws.{fields, SameRegs, saved_registers}
use chestnut.Irqs.Context.Wrapper.{handler_memory, wrapper-SameRegs}

abbrev before : Machine
before = record { regs = λ r. r + 100; rsp = 8192; memory = λ a. 0 }

abbrev cleared : Machine
cleared = record { regs = λ r. 0; rsp = 4096; memory = handler_memory false 9000 before }

wrapper-SameRegs_example :
    WordsAt cleared.memory (save_context before).rsp (
      fields before.regs
        ((save_context before).memory 9000)
        ((save_context before).memory (9000 + 32)))
    × (cleared.memory ((save_context before).rsp + 128) ≡ (save_context before).memory (9000 + 8))
    × SameRegs saved_registers (restore_context (save_context before).rsp cleared).regs before.regs
    × ((restore_context (save_context before).rsp cleared).rsp ≡ 8192)
wrapper-SameRegs_example =
    wrapper-SameRegs false 9000 before cleared (omega arith) (omega arith) (λ a h. refl)
