-- ===== src/Irqs/Context.antt =====
-- The assembly of `InterruptWrapper` (kern/irqs.cc) that saves and restores the registers around the handlers,
-- over `struct Context` (kern/thread.h). A register has the number of its field in `Context`, so
-- that the field is 8 times as far behind the start. The state of the floating point unit is left out.
pub mod Stack
pub mod Laws
pub mod Wrapper
mod Examples
use chestnut.Base.{ℕ, ◌+◌, ◌-◌, List, [], ◌∷◌, map, store}

abbrev pub rax : ℕ
rax = 0

abbrev pub rbx : ℕ
rbx = 1

abbrev pub rcx : ℕ
rcx = 2

abbrev pub rdx : ℕ
rdx = 3

abbrev pub rdi : ℕ
rdi = 4

abbrev pub rsi : ℕ
rsi = 5

-- `r8` is the first of those that have a number as their name.
abbrev pub r8 : ℕ
r8 = 8

-- The registers but `rsp`, and the memory in words of 64 bits, by their addresses.
pub record Machine : Type 0 where
  pub regs : ℕ → ℕ
  pub rsp : ℕ
  pub memory : ℕ → ℕ

pub data Instruction : Type 0 where
  push : ℕ → Instruction
  pop : ℕ → Instruction
  sub_rsp : ℕ → Instruction
  add_rsp : ℕ → Instruction

unfoldable pub exec : Instruction → Machine → Machine
exec (push r) m = record m { rsp = m.rsp - 8; memory = store m.memory (m.rsp - 8) (m.regs r) }
exec (pop r) m = record m { regs = store m.regs r (m.memory m.rsp); rsp = m.rsp + 8 }
exec (sub_rsp n) m = record m { rsp = m.rsp - n }
exec (add_rsp n) m = record m { rsp = m.rsp + n }

unfoldable pub run : List Instruction → Machine → Machine
run [] m = m
run (i ∷ is) m = run is (exec i m)

-- `r15` to `r8`, and `rsi` to `rax`, in the order of their pushes.
abbrev pub high_registers : List ℕ
high_registers = 15 ∷ 14 ∷ 13 ∷ 12 ∷ 11 ∷ 10 ∷ 9 ∷ r8 ∷ []

abbrev pub low_registers : List ℕ
low_registers = rsi ∷ rdi ∷ rdx ∷ rcx ∷ rbx ∷ rax ∷ []

-- The first block of assembly; `rsp` behind it is `stack_ptr`.
unfoldable pub save_context : Machine → Machine
save_context m =
    run (map push low_registers)
      (exec (sub_rsp 16) (run (map push high_registers) (exec (sub_rsp 8) (exec (sub_rsp 512) m))))

-- The second block, up to `leave`.
unfoldable pub restore_context : ℕ → Machine → Machine
restore_context stack_ptr m = exec (add_rsp 512) (
    exec (add_rsp 8) (
      run (map pop (r8 ∷ 9 ∷ 10 ∷ 11 ∷ 12 ∷ 13 ∷ 14 ∷ 15 ∷ [])) (
        exec (add_rsp 16)
          (run (map pop (rax ∷ rbx ∷ rcx ∷ rdx ∷ rdi ∷ rsi ∷ [])) (record m { rsp = stack_ptr })))))
