-- ===== src/Irqs/Examples.antt =====
-- A gate at a concrete place.
use chestnut.Base.{
  ◌%◌, ◌^◌, ◌≤◌, ◌⊎◌, ◌++◌, true, false, has, replicate, get_or, length, ℕ, ◌+◌, ◌*◌, ◌<◌, ◌≡◌,
  refl, inl, inr, Bool-cases, some, List, [], ◌∷◌, ◌==◌, if◌then◌else◌, arith,
}
use chestnut.Bytes.{Memory}
use chestnut.Irqs.Setup.{IrqVector, exception_irqs, setup, setup_lem}
use chestnut.Irqs.Chain.{
  Handlers, install_chain_handler, invoke_chain_handlers, IsChained, invoke-install,
}
use chestnut.Irqs.Gate.{IsGate}

abbrev empty_table : Memory
empty_table a = 0

-- Two handlers for the timer, and then a third.
abbrev two_handlers : Handlers
two_handlers =
    install_chain_handler 32 200
      (install_chain_handler 32 100 (record { heads = λ _. 0; next = λ _. 0 }))

abbrev two_chains : ℕ → List ℕ
two_chains irq = if 32 == irq then 200 ∷ 100 ∷ [] else []

two_handlers-IsChained : IsChained two_handlers two_chains
unfolding install_chain_handler
two_handlers-IsChained = record {
  chain = λ irq. elim (Bool-cases (32 == irq)) [
    | inl same ↦ rw same (refl, omega arith, (refl, omega arith, refl))
    | inr other ↦ rw other refl
  ];
}

invoke-install_example :
    invoke_chain_handlers 3 32 (install_chain_handler 32 300 two_handlers)
    ≡ some (if 32 == 32 then 300 ∷ two_chains 32 else two_chains 32)
invoke-install_example =
    invoke-install two_handlers two_chains 32 300 32 3 two_handlers-IsChained (omega arith)
      (λ irq. elim (Bool-cases (32 == irq)) [ inl same ↦ rw same refl | inr other ↦ rw other refl ])
      (omega arith) (omega arith)

-- Wrappers that lie one behind the other.
abbrev wrapper : ℕ → ℕ
wrapper irq = 1048576 + irq % 256 * 1024

wrapper-small : (irq : ℕ) → wrapper irq < 2 ^ 64
wrapper-small irq = omega arith

abbrev no_gates : IrqVector
no_gates = record {
  base_irq_addr = 0;
  bytes = empty_table;
  is_exception = replicate 32 false;
  overrun = [];
  handlers = λ irq. 0;
  outs = [];
}

setup_lem_example :
    ((irq : ℕ)
      → irq < 256
      → IsGate (setup 4096 wrapper no_gates).bytes (4096 + irq * 16) (wrapper irq) 142)
    × ((x : ℕ)
        → (x < 4096) ⊎ (4096 + 4096 ≤ x)
        → (setup 4096 wrapper no_gates).bytes x ≡ empty_table x)
    × ((irq : ℕ)
        → irq < 32
        → get_or (setup 4096 wrapper no_gates).is_exception irq false
          ≡ (if has irq exception_irqs then true else get_or no_gates.is_exception irq false))
    × (length (setup 4096 wrapper no_gates).is_exception ≡ 32)
    × ((setup 4096 wrapper no_gates).overrun ≡ (48 ∷ []))
    × ((pic : List (ℕ × ℕ)) × ((setup 4096 wrapper no_gates).outs
          ≡ pic ++ ((33, 255) ∷ (161, 255) ∷ [])))
setup_lem_example = setup_lem 4096 wrapper no_gates wrapper-small refl
