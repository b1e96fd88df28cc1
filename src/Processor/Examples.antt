-- ===== src/Processor/Examples.antt =====
-- The base register of a boot processor, at its address after a boot_msrs, and not enabled.
use chestnut.Base.{ℕ, ◌<◌, ◌≡◌, ◌≢◌, ◌&&◌, ◌||◌, ◌==◌, ltb, arith}
use chestnut.Base.Bits.{testbit}
use chestnut.Processor.{MsrValue, apic_base_msr, renew_apic_base}
use chestnut.Processor.ApicBase.{mask_bit, renew_apic_base_lem}

abbrev boot_msrs : ℕ → MsrValue
boot_msrs msr = record { lo = 4276093184; hi = 0 }

renew_apic_base_lem_example :
    ((i : ℕ)
      → i < 32
      → testbit (renew_apic_base boot_msrs apic_base_msr).lo i
        ≡ ((11 == i) || (testbit 4276093184 i && mask_bit i)))
    × ((i : ℕ)
        → i < 32
        → testbit (renew_apic_base boot_msrs apic_base_msr).hi i ≡ (testbit 0 i && ltb i 4))
    × ((msr : ℕ) → apic_base_msr ≢ msr → renew_apic_base boot_msrs msr ≡ boot_msrs msr)
renew_apic_base_lem_example = renew_apic_base_lem boot_msrs (omega arith) (omega arith)
