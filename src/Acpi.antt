-- ===== src/Acpi.antt =====
-- kern/acpi.cc and kern/acpi.h: the tables from which the kernel learns of the processors and of the
-- interrupt controllers. `mem` is the memory by physical address, in bytes; `kern_offset` is where the kernel
-- sees it.
pub mod Madt
pub mod Parse
pub mod Smp
pub mod Checksum
mod Examples
use Prim.Native.Nat.{bit_and}
use chestnut.Base.{
  ℕ, zero, suc, ◌+◌, ◌*◌, ◌%◌, ◌^◌, Bool, true, false, not, ◌&&◌, ◌||◌, Option, none, some, List,
  [], ◌∷◌, ◌++◌, ltb, ◌==◌, if◌then◌else◌,
}

-- A load of 32 bits.
unfoldable pub load32 : (ℕ → ℕ) → ℕ → ℕ
load32 mem a = mem a + mem (a + 1) * 2 ^ 8 + mem (a + 2) * 2 ^ 16 + mem (a + 3) * 2 ^ 24

pub record AcpiCpu : Type 0 where
  pub cpu_id : ℕ
  pub local_apic_id : ℕ
  pub enabled : Bool

-- What the constructor of `IoApic` gets.
pub record FoundIoApic : Type 0 where
  pub id : ℕ
  pub address : ℕ
  pub interrupt_base : ℕ

-- The fields of `Acpi`; without a local APIC, the address is `none`.
pub record Acpi : Type 0 where
  pub local_apic_address : Option ℕ
  pub cpus : List AcpiCpu
  pub io_apics : List FoundIoApic
  pub cpu_count : ℕ

-- The sizes of `AcpiHeader` and `AcpiHeaderMADT`.
abbrev pub header_size : ℕ
header_size = 36

abbrev pub madt_size : ℕ
madt_size = 44

-- `PADDR_TO_KPTR`.
unfoldable pub kernel_pointer : ℕ → ℕ → ℕ
kernel_pointer kern_offset paddr = (paddr + kern_offset) % 2 ^ 64

unfoldable pub add_cpu : (ℕ → ℕ) → ℕ → Acpi → Acpi
add_cpu mem p s = record s {
  cpus =
      s.cpus
      ++ (record {
        cpu_id = mem (p + 2);
        local_apic_id = mem (p + 3);
        enabled = 1 == bit_and (load32 mem (p + 4)) 1;
      }
          ∷ []);
  cpu_count = s.cpu_count + 1;
}

unfoldable pub add_io_apic : ℕ → (ℕ → ℕ) → ℕ → Acpi → Acpi
add_io_apic kern_offset mem p s = record s {
  io_apics =
      s.io_apics
      ++ (record {
        id = mem (p + 2);
        address = kernel_pointer kern_offset (load32 mem (p + 4));
        interrupt_base = load32 mem (p + 8);
      }
          ∷ []);
}

-- One round of the loop of `ParseTableAPIC`: the types 0 and 1 are those of the processors and of the
-- I/O APICs.
unfoldable pub parse_entry : ℕ → (ℕ → ℕ) → ℕ → Acpi → Acpi
parse_entry kern_offset mem p s =
    if mem p == 0
    then add_cpu mem p s
    else if mem p == 1
    then add_io_apic kern_offset mem p s
    else s

-- The loop, for at most `fuel` rounds; `none` when they are not enough.
unfoldable pub parse_entries : ℕ → ℕ → (ℕ → ℕ) → ℕ → ℕ → Acpi → Option Acpi
parse_entries zero kern_offset mem finish p s = if ltb p finish then none else some s
parse_entries (suc fuel) kern_offset mem finish p s =
    let rest =
      parse_entries fuel kern_offset mem finish (p + mem (p + 1))
        (parse_entry kern_offset mem p s) in
    if ltb p finish then rest else some s

-- `ParseTableAPIC`. The assertion is `none`.
unfoldable pub parse_table_apic : ℕ → ℕ → (ℕ → ℕ) → ℕ → Acpi → Option Acpi
parse_table_apic fuel kern_offset mem header s =
    let addr = load32 mem (header + header_size) in
    let found =
      parse_entries fuel kern_offset mem (header + load32 mem (header + 4)) (header + madt_size)
        (record s { local_apic_address = some (kernel_pointer kern_offset addr) }) in
    if addr == 0 then none else found

-- `TableUint32("APIC")`.
abbrev pub apic_signature : ℕ
apic_signature = 65 + 80 * 2 ^ 8 + 73 * 2 ^ 16 + 67 * 2 ^ 24

unfoldable pub parse_dt : ℕ → ℕ → (ℕ → ℕ) → ℕ → Acpi → Option Acpi
parse_dt fuel kern_offset mem ptr s =
    if load32 mem ptr == apic_signature then parse_table_apic fuel kern_offset mem ptr s else some s

-- The loop of `ParseRSDT` over the addresses of tables.
unfoldable pub parse_addresses : ℕ → ℕ → (ℕ → ℕ) → ℕ → ℕ → Acpi → Option Acpi
parse_addresses zero kern_offset mem finish p s = if ltb p finish then none else some s
parse_addresses (suc fuel) kern_offset mem finish p s =
    if ltb p finish
    then elim (parse_dt fuel kern_offset mem (load32 mem p) s) [
      | none ↦ none
      | some s' ↦ parse_addresses fuel kern_offset mem finish (p + 4) s'
    ]
    else some s

unfoldable pub parse_rsdt : ℕ → ℕ → (ℕ → ℕ) → ℕ → Acpi → Option Acpi
parse_rsdt fuel kern_offset mem ptr s =
    parse_addresses fuel kern_offset mem (ptr + load32 mem (ptr + 4)) (ptr + header_size) s

-- The sum of `n` bytes in a `u8`.
unfoldable pub byte_sum : ℕ → (ℕ → ℕ) → ℕ → ℕ
byte_sum zero mem p = 0
byte_sum (suc n) mem p = (byte_sum n mem p + mem (p + n)) % 2 ^ 8

-- `ParseRSDP`: whether it has found the tables, and the state behind it.
unfoldable pub parse_rsdp : ℕ → ℕ → (ℕ → ℕ) → ℕ → Acpi → Option (Bool × Acpi)
parse_rsdp fuel kern_offset mem p s =
    let rsdt_addr = load32 mem (p + 16) in
    let found : Option (Bool × Acpi) = elim (parse_rsdt fuel kern_offset mem rsdt_addr s) [
      | none ↦ none
      | some s' ↦ some (true, s')
    ] in
    if not (byte_sum 20 mem p == 0)
    then some (false, s)
    else if not ((mem (p + 15) == 0) || (mem (p + 15) == 2))
    then some (false, s)
    else if rsdt_addr == 0
    then none
    else found

-- The signature `RSD PTR `, of 8 bytes.
unfoldable pub is_rsdp : (ℕ → ℕ) → ℕ → Bool
is_rsdp mem p = (load32 mem p == 541348690) && (load32 mem (p + 4) == 542266448)

-- The search of `Init`, `rounds` steps of 16 bytes from `p`.
unfoldable pub find_rsdp : ℕ → ℕ → ℕ → (ℕ → ℕ) → ℕ → Acpi → Option Acpi
find_rsdp zero fuel kern_offset mem p s = some s
find_rsdp (suc rounds) fuel kern_offset mem p s =
    let next = λ (s' : Acpi). find_rsdp rounds fuel kern_offset mem (p + 16) s' in
    if is_rsdp mem p
    then elim (parse_rsdp fuel kern_offset mem p s) [
      | none ↦ none
      | some (found, s') ↦ if found then some s' else next s'
    ]
    else next s

-- `Init` from 0xe0000 to 0x1000000: the panic, when no I/O APIC was found, is `none`.
unfoldable pub init : ℕ → ℕ → (ℕ → ℕ) → Acpi → Option Acpi
init fuel kern_offset mem s = elim (find_rsdp 991232 fuel kern_offset mem 917504 s) [
  | none ↦ none
  | some s' ↦ elim s'.io_apics [ [] ↦ none | ioa ∷ rest ↦ some s' ]
]
