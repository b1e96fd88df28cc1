-- ===== src/Thread/Laws.antt =====
-- A context that is saved comes back.
use chestnut.Base.{ℕ, ◌+◌, ◌≤◌, ◌≡◌, ◌⊎◌, refl}
use chestnut.Thread.{Cpu, exec, run, restore_context}

-- The words of the context that `SaveContext` leaves, in the order of their addresses.
pub record IsSaved (reg : ℕ) (c : Cpu) (memory : ℕ → ℕ) : Type 0 where
  pub rbx_word : memory (reg + 8) ≡ c.regs 1
  pub rbp_word : memory (reg + 16) ≡ c.memory (c.regs 7)
  pub r12_word : memory (reg + 24) ≡ c.regs 12
  pub r13_word : memory (reg + 32) ≡ c.regs 13
  pub r14_word : memory (reg + 40) ≡ c.regs 14
  pub r15_word : memory (reg + 48) ≡ c.regs 15
  pub rdi_word : memory (reg + 56) ≡ c.regs 4
  pub rsi_word : memory (reg + 64) ≡ c.regs 5
  pub rdx_word : memory (reg + 72) ≡ c.regs 3
  pub rcx_word : memory (reg + 80) ≡ c.regs 2
  pub r8_word : memory (reg + 88) ≡ c.regs 8
  pub r9_word : memory (reg + 96) ≡ c.regs 9
  pub rip_word : memory (reg + 104) ≡ c.memory (c.regs 7 + 8)
  pub rsp_word : memory (reg + 112) ≡ c.regs 7 + 16

-- The two words on the stack are not in the context.
abbrev pub Apart : ℕ → ℕ → Type 0
Apart reg sp = (sp + 16 ≤ reg) ⊎ (reg + 120 ≤ sp)

-- A thread goes on where it saved its context.
pub record IsResumed (c r : Cpu) : Type 0 where
  pub rip_lem : r.rip ≡ c.memory (c.regs 7 + 8)
  pub rsp_lem : r.regs 7 ≡ c.regs 7 + 16
  pub rbp_lem : r.regs 6 ≡ c.memory (c.regs 7)
  pub rbx_lem : r.regs 1 ≡ c.regs 1
  pub rcx_lem : r.regs 2 ≡ c.regs 2
  pub rdx_lem : r.regs 3 ≡ c.regs 3
  pub rdi_lem : r.regs 4 ≡ c.regs 4
  pub rsi_lem : r.regs 5 ≡ c.regs 5
  pub r8_lem : r.regs 8 ≡ c.regs 8
  pub r9_lem : r.regs 9 ≡ c.regs 9
  pub r12_lem : r.regs 12 ≡ c.regs 12
  pub r13_lem : r.regs 13 ≡ c.regs 13
  pub r14_lem : r.regs 14 ≡ c.regs 14
  pub r15_lem : r.regs 15 ≡ c.regs 15

-- In any other register that is loaded before, the address is lost: with `rax`, which is loaded first, the
-- other registers come from wherever the word at the address 0 says.
lost_in_rax : (d : Cpu) → (restore_context 0 d).regs 1 ≡ d.memory (d.memory 0 + 8)
unfolding restore_context run exec
lost_in_rax d = refl
