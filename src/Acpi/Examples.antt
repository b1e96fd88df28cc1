-- ===== src/Acpi/Examples.antt =====
-- A MADT with two processors and an I/O APIC, and the start of the second processor.
use chestnut.Base.{
  ℕ, zero, suc, ◌+◌, ◌-◌, ◌≡◌, ◌≢◌, refl, false, none, some, List, [], ◌∷◌, ◌++◌, length, get_or,
  replicate, ltb, store, if◌then◌else◌, arith,
}
use chestnut.Apic.{send_apic_init, send_apic_startup}
use chestnut.Acpi.{
  load32, kernel_pointer, header_size, madt_size, Acpi, parse_entries, parse_table_apic, byte_sum,
  parse_rsdp,
}
use chestnut.Acpi.Checksum.{parse_rsdp_changed}
use chestnut.Acpi.Madt.{
  Entry, local_apic_entry, io_apic_entry, other_entry, encode_all, word, AllEntries, Reads,
  with_entries, cpus_of,
}
use chestnut.Acpi.Parse.{parse_table_apic-encode, parse_entries_stuck}
use chestnut.Acpi.Smp.{boot_smp, others, each, Answers, boot_smp-each}

abbrev entries : List Entry
entries =
    local_apic_entry 0 0 1
    ∷ local_apic_entry 1 1 1
    ∷ io_apic_entry 2 4273995776 0
    ∷ other_entry 2 (0 ∷ 0 ∷ 2 ∷ [])
    ∷ []

entries-AllEntries : AllEntries entries
entries-AllEntries =
    (omega arith, (omega arith, ((omega arith, omega arith), ((omega arith, omega arith), tt))))

abbrev head : List ℕ
head = 65 ∷ 80 ∷ 73 ∷ 67 ∷ word 77 ++ (replicate 28 0 ++ (word 4276092928 ++ word 1))

abbrev memory : ℕ → ℕ
memory a = if ltb a 44 then get_or head a 0 else get_or (encode_all entries) (a - 44) 0

memory-Reads : Reads memory (0 + madt_size) (encode_all entries)
memory-Reads i h =
    let behind : ltb (0 + 44 + i) 44 ≡ false = ground arith in
    let place : 0 + 44 + i - 44 ≡ i = omega arith in rw (behind, place) refl

size_here : load32 memory (0 + 4) ≡ madt_size + length (encode_all entries)
unfolding load32
size_here = refl

address_here : load32 memory (0 + header_size) ≢ 0
unfolding load32
address_here = omega arith

abbrev nothing : Acpi
nothing = record { local_apic_address = none; cpus = []; io_apics = []; cpu_count = 0 }

parse_table_apic-encode_example :
    parse_table_apic 4 1048576 memory 0 nothing
    ≡ some (
        with_entries 1048576 entries (record nothing {
          local_apic_address = some (kernel_pointer 1048576 (load32 memory (0 + header_size)));
        }))
parse_table_apic-encode_example =
    parse_table_apic-encode 4 1048576 memory 0 entries nothing entries-AllEntries memory-Reads
      size_here address_here (omega arith)

-- With 100 bytes in the table, the byte behind the entries is the length of a next one, and it is 0.
parse_entries_stuck_example : parse_entries 1000 1048576 memory 100 (0 + madt_size) nothing ≡ none
parse_entries_stuck_example =
    parse_entries_stuck 1048576 memory 100 entries 1000 (0 + madt_size) nothing entries-AllEntries
      memory-Reads (omega arith) refl

-- The counter is set at the second look.
abbrev second_look : ℕ → ℕ → ℕ
second_look n zero = 0
second_look n (suc k) = n

second_look-Answers : Answers 2 second_look (length (cpus_of entries))
second_look-Answers n ge le = (1, omega arith, refl)

boot_smp-each_example :
    boot_smp 2 second_look 0 (cpus_of entries)
    ≡ some (
        each send_apic_init (others 0 (cpus_of entries))
        ++ each (λ id. send_apic_startup id 8) (others 0 (cpus_of entries)))
boot_smp-each_example =
    boot_smp-each 2 second_look 0 (cpus_of entries) second_look-Answers (omega arith)

-- `RSD PTR `, its checksum 225, and zeros.
abbrev rsdp : ℕ → ℕ
rsdp a = get_or (82 ∷ 83 ∷ 68 ∷ 32 ∷ 80 ∷ 84 ∷ 82 ∷ 32 ∷ 225 ∷ []) a 0

rsdp_sum : byte_sum 20 rsdp 0 ≡ 0
unfolding byte_sum
rsdp_sum = refl

parse_rsdp_changed_example :
    parse_rsdp 100 1048576 (store rsdp (0 + 9) 7) 0 nothing ≡ some (false, nothing)
parse_rsdp_changed_example =
    parse_rsdp_changed 100 1048576 rsdp 0 9 7 nothing rsdp_sum (omega arith) (omega arith)
      (omega arith) (omega arith)
