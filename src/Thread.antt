-- ===== src/Thread.antt =====
-- kern/thread.cc: `Thread::SaveContext` and `Thread::RestoreContext`, which are assembly. The file is not part
-- of the build. A register has its number in the machine code's order of kern/thread.h, and memory is words of 64 bits by
-- their addresses.
pub mod Laws
mod Examples
use chestnut.Base.{ℕ, ◌+◌, ◌-◌, List, [], ◌∷◌, store}

abbrev pub rax : ℕ
rax = 0

abbrev pub rbx : ℕ
rbx = 1

abbrev pub rcx : ℕ
rcx = 2

abbrev pub rdx : ℕ
rdx = 3

abbrev pub rdi : ℕ
rdi = 4

abbrev pub rsi : ℕ
rsi = 5

abbrev pub rbp : ℕ
rbp = 6

abbrev pub rsp : ℕ
rsp = 7

-- `r8` to `r15` have their own numbers.
pub record Cpu : Type 0 where
  pub regs : ℕ → ℕ
  pub rip : ℕ
  pub memory : ℕ → ℕ

pub data Instruction : Type 0 where
  -- `movq %reg, off(%base)` and `movq off(%base), %reg`, and `movq` from an address.
  move_to : ℕ → ℕ → ℕ → Instruction
  move_from : ℕ → ℕ → ℕ → Instruction
  move_from_address : ℕ → ℕ → Instruction
  -- `leaq off(%base), %reg`.
  address_of : ℕ → ℕ → ℕ → Instruction
  -- `push off(%base)`, and `retq`.
  push_word : ℕ → ℕ → Instruction
  return : Instruction

unfoldable pub exec : Instruction → Cpu → Cpu
exec (move_to r n base) c = record c { memory = store c.memory (c.regs base + n) (c.regs r) }
exec (move_from n base r) c = record c { regs = store c.regs r (c.memory (c.regs base + n)) }
exec (move_from_address a r) c = record c { regs = store c.regs r (c.memory a) }
exec (address_of n base r) c = record c { regs = store c.regs r (c.regs base + n) }
exec (push_word n base) c = record c {
  regs = store c.regs 7 (c.regs 7 - 8);
  memory = store c.memory (c.regs 7 - 8) (c.memory (c.regs base + n));
}
exec return c = record c { rip = c.memory (c.regs 7); regs = store c.regs 7 (c.regs 7 + 8) }

unfoldable pub run : List Instruction → Cpu → Cpu
run [] c = c
run (i ∷ is) c = run is (exec i c)

-- `SaveContext`; the operand is in memory, and `base` is the register that the compiler takes for the address of
-- `context.reg`.
abbrev pub save_code : ℕ → List Instruction
save_code base =
    move_to rax 0 base
    ∷ move_to rbx 8 base
    ∷ move_to 12 24 base
    ∷ move_to 13 32 base
    ∷ move_to 14 40 base
    ∷ move_to 15 48 base
    ∷ move_to rdi 56 base
    ∷ move_to rsi 64 base
    ∷ move_to rdx 72 base
    ∷ move_to rcx 80 base
    ∷ move_to 8 88 base
    ∷ move_to 9 96 base
    ∷ move_from 0 rsp rcx
    ∷ move_to rcx 16 base
    ∷ move_from 8 rsp rcx
    ∷ move_to rcx 104 base
    ∷ address_of 16 rsp rcx
    ∷ move_to rcx 112 base
    ∷ []

-- `RestoreContext`, with a register of its own for the address. The first operand is the address 0. The
-- compiler is not told which registers change: from the load of `base` on, if there is one, the
-- operands are somewhere else.
abbrev pub restore_code : ℕ → List Instruction
restore_code base =
    move_from_address 0 rax
    ∷ move_from 8 base rbx
    ∷ move_from 16 base rbp
    ∷ move_from 24 base 12
    ∷ move_from 32 base 13
    ∷ move_from 40 base 14
    ∷ move_from 48 base 15
    ∷ move_from 56 base rdi
    ∷ move_from 64 base rsi
    ∷ move_from 72 base rdx
    ∷ move_from 80 base rcx
    ∷ move_from 88 base 8
    ∷ move_from 96 base 9
    ∷ move_from 112 base rsp
    ∷ push_word 104 base
    ∷ return
    ∷ []

unfoldable pub save_context : ℕ → Cpu → Cpu
save_context base c = run (save_code base) c

unfoldable pub restore_context : ℕ → Cpu → Cpu
restore_context base c = run (restore_code base) c
