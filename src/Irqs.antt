-- ===== src/Irqs.antt =====
-- The gates of the interrupt descriptor table, `IrqVector::InstallIrqFunction` (kern/irqs.cc), the registers that the
-- wrapper of an interrupt saves, and the chains of handlers.
pub mod Gate
pub mod Context
pub mod Chain
pub mod Setup
mod Examples
use chestnut.Base.{ℕ, ◌+◌, ◌*◌, ◌/◌, ◌%◌, ◌^◌, List, [], ◌∷◌, store}
use chestnut.Bytes.{Memory}

-- The array `b`, of the address of a function and the type of its gate. A mask with a shift to the
-- right is a quotient and a rest.
unfoldable pub gate : ℕ → ℕ → List ℕ
gate func type =
    func % 2 ^ 8
    ∷ func / 2 ^ 8 % 2 ^ 8
    ∷ 8
    ∷ 0
    ∷ 0
    ∷ type
    ∷ func / 2 ^ 16 % 2 ^ 8
    ∷ func / 2 ^ 24 % 2 ^ 8
    ∷ func / 2 ^ 32 % 2 ^ 8
    ∷ func / 2 ^ 40 % 2 ^ 8
    ∷ func / 2 ^ 48 % 2 ^ 8
    ∷ func / 2 ^ 56 % 2 ^ 8
    ∷ 0
    ∷ 0
    ∷ 0
    ∷ 0
    ∷ []

-- The loop over the array, from an address on.
unfoldable pub write_bytes : ℕ → List ℕ → Memory → Memory
write_bytes a [] m = m
write_bytes a (b ∷ bs) m = write_bytes (a + 1) bs (store m a b)

-- `base_irq_addr` is the address of the table as the kernel sees it.
unfoldable pub install_irq_function : ℕ → ℕ → ℕ → ℕ → Memory → Memory
install_irq_function base_irq_addr irq_id func type m =
    write_bytes (base_irq_addr + irq_id * 16) (gate func type) m
