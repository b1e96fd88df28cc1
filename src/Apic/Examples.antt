-- ===== src/Apic/Examples.antt =====
-- The interrupt controllers at concrete inputs.
use chestnut.Base.{
  ℕ, ◌+◌, ◌*◌, ◌≤◌, ◌≡◌, refl, arith, true, false, some, [], ◌∷◌, ◌==◌, if◌then◌else◌,
}
use chestnut.Apic.{IoApic, init, interrupt_command, send, send_apic_init, send_apic_startup}
use chestnut.Apic.Command.{HasFields, interrupt_command-HasFields}
use chestnut.Apic.Redirect.{vector_of, max_entry, init-Redirects}

interrupt_command-HasFields_example :
    HasFields (interrupt_command 8 6 0 true false 0 3) 8 6 0 0 3 true false
interrupt_command-HasFields_example =
    interrupt_command-HasFields 8 6 0 0 3 true false (omega arith) (omega arith) (omega arith)
      (omega arith) (omega arith)

-- The words of the INIT and of the STARTUP command.
init_words : send_apic_init 3 ≡ ((784, 50331648) ∷ (768, 17664) ∷ [])
unfolding send_apic_init send interrupt_command
init_words = refl

startup_words : send_apic_startup 3 8 ≡ ((784, 50331648) ∷ (768, 17928) ∷ [])
unfolding send_apic_startup send interrupt_command
startup_words = refl

-- The I/O APIC of the usual chipsets: 24 entries, as the version register says.
abbrev pc_io_apic : IoApic
pc_io_apic = record {
  id = 0;
  interrupt_base = 0;
  selected = 0;
  registers = λ a. if a == 1 then 23 * 65536 else 0;
}

init-Redirects_example :
    (s' : IoApic) × (init pc_io_apic ≡ some s')
    × ((j : ℕ)
        → j ≤ max_entry pc_io_apic
        → (s'.registers (16 + 2 * j) ≡ vector_of 0 j) × (s'.registers (16 + 2 * j + 1) ≡ 0))
init-Redirects_example = init-Redirects pc_io_apic (omega arith) (omega arith) (omega arith)
