-- ===== src/Ports.antt =====
-- The configuration registers of PCI devices (kern/io-ports.h). `config` is what the data port reads, as 32 bits, after an
-- address was written to the address port.
pub mod Bytes
use Prim.Native.Nat.{bit_and, bit_or}
use chestnut.Base.{
  ℕ, ◌+◌, ◌*◌, ◌/◌, ◌%◌, ◌^◌, Bool, true, false, ◌&&◌, Option, none, some, List, [], ◌∷◌, ltb, ◌==◌,
  if◌then◌else◌,
}

abbrev pub pci_address_port : ℕ
pci_address_port = 3320

abbrev pub pci_data_port : ℕ
pci_data_port = 3324

-- The address of `PciWriteAddr`; a failed assertion is `none`.
unfoldable pub pci_address : ℕ → ℕ → ℕ → ℕ → Option ℕ
pci_address bus slot func offset =
    if ltb slot 32 && ltb func 8
    then some (
        bit_or
          (bit_or (bit_or (bit_or (bus * 2 ^ 16) (slot * 2 ^ 11)) (func * 2 ^ 8))
            (bit_and offset 252))
          (2 ^ 31))
    else none

-- `PciReadB`, `PciReadW` and `PciReadDW`.
unfoldable pub pci_read_b : (ℕ → ℕ) → ℕ → ℕ → ℕ → ℕ → Option ℕ
pci_read_b config bus slot func offset = elim (pci_address bus slot func offset) [
  | none ↦ none
  | some addr ↦ some (config addr / 2 ^ (bit_and offset 3 * 8) % 2 ^ 8)
]

unfoldable pub pci_read_w : (ℕ → ℕ) → ℕ → ℕ → ℕ → ℕ → Option ℕ
pci_read_w config bus slot func offset =
    if bit_and offset 1 == 0
    then elim (pci_address bus slot func offset) [
      | none ↦ none
      | some addr ↦ some (config addr / 2 ^ (bit_and offset 2 * 8) % 2 ^ 16)
    ]
    else none

unfoldable pub pci_read_dw : (ℕ → ℕ) → ℕ → ℕ → ℕ → ℕ → Option ℕ
pci_read_dw config bus slot func offset =
    if bit_and offset 3 == 0
    then elim (pci_address bus slot func offset) [ none ↦ none | some addr ↦ some (config addr) ]
    else none

-- `PciWriteB`, `PciWriteW` and `PciWriteDW` as the writes to ports that they make.
unfoldable pub pci_write_b : ℕ → ℕ → ℕ → ℕ → ℕ → Option (List (ℕ × ℕ))
pci_write_b bus slot func offset value = elim (pci_address bus slot func offset) [
  | none ↦ none
  | some addr ↦ some ((pci_address_port, addr) ∷ (pci_data_port + bit_and offset 3, value) ∷ [])
]

unfoldable pub pci_write_w : ℕ → ℕ → ℕ → ℕ → ℕ → Option (List (ℕ × ℕ))
pci_write_w bus slot func offset value =
    if bit_and offset 1 == 0
    then elim (pci_address bus slot func offset) [
      | none ↦ none
      | some addr ↦ some ((pci_address_port, addr) ∷ (pci_data_port + bit_and offset 2, value) ∷ [])
    ]
    else none

unfoldable pub pci_write_dw : ℕ → ℕ → ℕ → ℕ → ℕ → Option (List (ℕ × ℕ))
pci_write_dw bus slot func offset value =
    if bit_and offset 3 == 0
    then elim (pci_address bus slot func offset) [
      | none ↦ none
      | some addr ↦ some ((pci_address_port, addr) ∷ (pci_data_port, value) ∷ [])
    ]
    else none
