-- ===== src/Apic.antt =====
-- The interrupt controllers: kern/apic.h and kern/apic.cc.
pub mod Command
pub mod Redirect
pub mod Group
mod Examples
use Prim.Native.Nat.{bit_and, bit_or}
use chestnut.Base.{
  ℕ, zero, suc, ◌+◌, ◌-◌, ◌*◌, ◌/◌, ◌%◌, ◌^◌, Bool, true, false, ◌&&◌, not, Option, none, some,
  List, [], ◌∷◌, ltb, ◌==◌, if◌then◌else◌, store,
}

-- `LocalApicInterruptCommand`, whose fields in the constructor's order are those of the two words.
pub record InterruptCommand : Type 0 where
  pub hi : ℕ
  pub lo : ℕ

abbrev pub of_bool : Bool → ℕ
of_bool true = 1
of_bool false = 0

-- Its constructor. `dest << 24` is made in an `int` and kept in a `u32`.
unfoldable pub interrupt_command : ℕ → ℕ → ℕ → Bool → Bool → ℕ → ℕ → InterruptCommand
interrupt_command vector_num dmode destmode is_no_deassert trigger_mode dshort dest = record {
  hi = dest * 2 ^ 24 % 2 ^ 32;
  lo =
      bit_or
        (bit_or
          (bit_or (bit_or (bit_or vector_num (dmode * 2 ^ 8)) (destmode * 2 ^ 11))
            (of_bool is_no_deassert * 2 ^ 14))
          (of_bool trigger_mode * 2 ^ 15))
        (dshort * 2 ^ 18);
}

-- The registers `INTERRUPT_COMMAND_HI` and `INTERRUPT_COMMAND_LO`, and `InterruptCommand` as the
-- writes it makes, the first one first. The write of the low word sends the command.
unfoldable pub send : InterruptCommand → List (ℕ × ℕ)
send command = (784, command.hi) ∷ (768, command.lo) ∷ []

-- `SendApicInit` and `SendApicStartup`: delivery modes INIT and STARTUP, physical destination.
unfoldable pub send_apic_init : ℕ → List (ℕ × ℕ)
send_apic_init apicid = send (interrupt_command 0 5 0 true false 0 apicid)

unfoldable pub send_apic_startup : ℕ → ℕ → List (ℕ × ℕ)
send_apic_startup apicid vector_num = send (interrupt_command vector_num 6 0 true false 0 apicid)

-- An I/O APIC with its fields: the register that `IOREGSEL` selects, and the registers behind `IOWIN`.
pub record IoApic : Type 0 where
  pub id : ℕ
  pub interrupt_base : ℕ
  pub selected : ℕ
  pub registers : ℕ → ℕ

-- The constructor of a controller with these registers.
unfoldable pub new_io_apic : ℕ → ℕ → (ℕ → ℕ) → IoApic
new_io_apic id interrupt_base registers = record {
  id = id;
  interrupt_base = interrupt_base;
  selected = 0;
  registers = registers;
}

-- `IoApicRegistersAccessor::Read`.
unfoldable pub read_register : ℕ → IoApic → ℕ × IoApic
read_register reg s = (s.registers reg, record s { selected = reg })

-- `IoApicRegistersAccessor::Write`, whose `value` and `reg_offset` are of type `u8`.
unfoldable pub write_register : ℕ → ℕ → ℕ → IoApic → IoApic
write_register reg reg_offset value s = record s {
  selected = reg + reg_offset % 2 ^ 8;
  registers = store s.registers (reg + reg_offset % 2 ^ 8) (value % 2 ^ 8);
}

-- `SetEntry`, where `REDTBL` is 0x10 and `index` is a `u8`.
unfoldable pub set_entry : ℕ → ℕ → IoApic → IoApic
set_entry index entry s =
    write_register 16 (index % 2 ^ 8 * 2 + 1) (entry / 2 ^ 32 % 2 ^ 32)
      (write_register 16 (index % 2 ^ 8 * 2) (entry % 2 ^ 32) s)

unfoldable pub enable_irq : ℕ → ℕ → IoApic → IoApic
enable_irq first_irq_offset irq s =
    set_entry irq ((first_irq_offset + irq + s.interrupt_base) % 2 ^ 32) s

-- The body of the loop of `Init`: `kIntMasked | (kIRQOffset + i)` for the timer.
unfoldable pub init_entry : ℕ → IoApic → IoApic
init_entry i s =
    if (0 == s.interrupt_base) && (0 == i)
    then set_entry i (bit_or (2 ^ 16) ((32 + i) % 2 ^ 32)) s
    else enable_irq 32 i s

-- The loop, with `left` rounds to go.
unfoldable pub init_entries : ℕ → ℕ → IoApic → IoApic
init_entries zero i s = s
init_entries (suc left) i s = init_entries left (i + 1) (init_entry i s)

-- The patch of the ID register.
unfoldable pub patch_id : IoApic → IoApic
patch_id s =
    let (value, s') = read_register 0 s in
    let id_reg = bit_and (value / 2 ^ 24) 15 in
    if id_reg == s.id then s' else write_register 0 0 (s.id * 2 ^ 24 % 2 ^ 32) s'

-- `IoApic::Init`, behind the mapping of its page. A failed `kassert` is `none`; `IrqVector` has
-- `max_interrupt` entries.
abbrev pub max_interrupt : ℕ
max_interrupt = 256

unfoldable pub init : IoApic → Option IoApic
init s =
    let (value, s') = read_register 1 (patch_id s) in
    let max_value = bit_and (value / 2 ^ 16) 255 in
    if max_value == 0
    then none
    else if ltb (max_value + 1) max_interrupt
    then some (init_entries (max_value + 1) 0 s')
    else none

-- `Acpi::InitIoApics` (kern/acpi.cc), of controllers with registers of their own.
unfoldable pub init_io_apics : List IoApic → Option (List IoApic)
init_io_apics [] = some []
init_io_apics (ioa ∷ io_apics) =
    let rest = init_io_apics io_apics in
    elim (init ioa) [
      | none ↦ none
      | some ioa' ↦ elim rest [ none ↦ none | some io_apics' ↦ some (ioa' ∷ io_apics') ]
    ]
