-- ===== src/Acpi/Parse.antt =====
-- The loop over the entries of the MADT.
use mathlib.Core.List.{append_assoc, append-nil}
use chestnut.Base.{
  ℕ, zero, suc, ◌+◌, ◌≤◌, ◌<◌, ◌≡◌, ◌≢◌, refl, sym, ap, ◌∙◌, true, false, none, some, List, [], ◌∷◌,
  ◌++◌, length, length-append, ltb, arith, ==_ne,
}
use chestnut.Acpi.{
  load32, kernel_pointer, header_size, madt_size, AcpiCpu, FoundIoApic, Acpi, parse_entry,
  parse_entries, parse_table_apic,
}
use chestnut.Acpi.Madt.{
  Entry, local_apic_entry, io_apic_entry, other_entry, encode, encode_all, IsEntry, AllEntries,
  Reads, Reads-left, Reads-right, cpus_of, io_apics_of, with_entries, parse_one, next_entry,
}

cpus_of-cons : (e : Entry) (es : List Entry) → cpus_of (e ∷ []) ++ cpus_of es ≡ cpus_of (e ∷ es)
cpus_of-cons (local_apic_entry processor apic_id flags) es = refl
cpus_of-cons (io_apic_entry id address interrupt_base) es = refl
cpus_of-cons (other_entry kind body) es = refl

io_apics_of-cons :
    (kern_offset : ℕ) (e : Entry) (es : List Entry)
    → io_apics_of kern_offset (e ∷ []) ++ io_apics_of kern_offset es
      ≡ io_apics_of kern_offset (e ∷ es)
io_apics_of-cons kern_offset (local_apic_entry processor apic_id flags) es = refl
io_apics_of-cons kern_offset (io_apic_entry id address interrupt_base) es = refl
io_apics_of-cons kern_offset (other_entry kind body) es = refl

with_entries-cons :
    (kern_offset : ℕ) (e : Entry) (es : List Entry) (s : Acpi)
    → with_entries kern_offset es (with_entries kern_offset (e ∷ []) s)
      ≡ with_entries kern_offset (e ∷ es) s
with_entries-cons kern_offset e es s =
    let c =
      append_assoc s.cpus (cpus_of (e ∷ [])) (cpus_of es)
      ∙ ap (λ (x : List AcpiCpu). s.cpus ++ x) (cpus_of-cons e es) in
    let a =
      append_assoc s.io_apics (io_apics_of kern_offset (e ∷ [])) (io_apics_of kern_offset es)
      ∙ ap (λ (x : List FoundIoApic). s.io_apics ++ x) (io_apics_of-cons kern_offset e es) in
    let l = length-append (cpus_of (e ∷ [])) (cpus_of es) in
    let m = ap length (cpus_of-cons e es) in
    let n : s.cpu_count + length (cpus_of (e ∷ [])) + length (cpus_of es)
        ≡ s.cpu_count + length (cpus_of (e ∷ es)) =
      omega (arith, l, m) in
    λ i. record {
      local_apic_address = s.local_apic_address;
      cpus = c i;
      io_apics = a i;
      cpu_count = n i;
    }

with_entries-nil : (kern_offset : ℕ) (s : Acpi) → s ≡ with_entries kern_offset [] s
with_entries-nil kern_offset s =
    let n : s.cpu_count ≡ s.cpu_count + 0 = omega arith in
    λ i. record {
      local_apic_address = s.local_apic_address;
      cpus = sym (append-nil s.cpus) i;
      io_apics = sym (append-nil s.io_apics) i;
      cpu_count = n i;
    }

length-encode : (e : Entry) → 2 ≤ length (encode e)
length-encode (local_apic_entry processor apic_id flags) = omega arith
length-encode (io_apic_entry id address interrupt_base) = omega arith
length-encode (other_entry kind body) = omega arith

module _ (kern_offset : ℕ) (mem : ℕ → ℕ) (finish : ℕ) where
  -- A round that is made.
  parse_step :
      (fuel p : ℕ) (s : Acpi) (e : Entry)
      → IsEntry e
      → Reads mem p (encode e)
      → p < finish
      → parse_entries (suc fuel) kern_offset mem finish p s
        ≡ parse_entries fuel kern_offset mem finish
            (p + length (encode e))
            (with_entries kern_offset (e ∷ []) s)
  unfolding parse_entries
  parse_step fuel p s e ok r more =
      let going : ltb p finish ≡ true = ground arith in
      rw (going, parse_one kern_offset mem p s e ok r, next_entry kern_offset mem p s e r) refl

  parse_all :
      (fuel p : ℕ) (s : Acpi) (es : List Entry)
      → AllEntries es
      → Reads mem p (encode_all es)
      → p + length (encode_all es) ≡ finish
      → length es ≤ fuel
      → parse_entries fuel kern_offset mem finish p s ≡ some (with_entries kern_offset es s)
  unfolding parse_entries
  parse_all zero p s [] ok r end enough =
      let over : ltb p finish ≡ false = ground (arith, end) in
      rw over (ap some (with_entries-nil kern_offset s))
  parse_all (suc fuel) p s [] ok r end enough =
      let over : ltb p finish ≡ false = ground (arith, end) in
      rw over (ap some (with_entries-nil kern_offset s))
  parse_all zero p s (e ∷ es) ok r end enough = absurd (omega (arith, enough))
  parse_all (suc fuel) p s (e ∷ es) (ok, oks) r end enough =
      let long = length-encode e in
      let size = length-append (encode e) (encode_all es) in
      parse_step fuel p s e ok (Reads-left mem p (encode e) (encode_all es) r)
        (omega (arith, end, size, long))
      ∙ (parse_all fuel (p + length (encode e)) (with_entries kern_offset (e ∷ []) s) es oks
            (Reads-right mem p (encode e) (encode_all es) r) (omega (arith, end, size))
            (omega (arith, enough))
          ∙ ap some (with_entries-cons kern_offset e es s))

  pub stuck :
      (fuel p : ℕ) (s : Acpi)
      → p < finish
      → mem (p + 1) ≡ 0
      → parse_entries fuel kern_offset mem finish p s ≡ none
  unfolding parse_entries
  stuck zero p s more here = ground arith
  stuck (suc fuel) p s more here =
      let going : ltb p finish ≡ true = ground arith in
      let stay : p + mem (p + 1) ≡ p = omega (arith, here) in
      rw (going, stay) (stuck fuel p (parse_entry kern_offset mem p s) more here)

  -- Entries, and one whose length is 0 behind them and before the end of the table: the loop does not end.
  pub parse_entries_stuck :
      (es : List Entry) (fuel p : ℕ) (s : Acpi)
      → AllEntries es
      → Reads mem p (encode_all es)
      → p + length (encode_all es) < finish
      → mem (p + length (encode_all es) + 1) ≡ 0
      → parse_entries fuel kern_offset mem finish p s ≡ none
  unfolding parse_entries
  parse_entries_stuck [] fuel p s ok r more here =
      stuck fuel p s (omega (arith, more)) (ap mem (omega arith) ∙ here)
  parse_entries_stuck (e ∷ es) zero p s ok r more here = ground (arith, more)
  parse_entries_stuck (e ∷ es) (suc fuel) p s (ok, oks) r more here =
      let long = length-encode e in
      let size = length-append (encode e) (encode_all es) in
      parse_step fuel p s e ok (Reads-left mem p (encode e) (encode_all es) r)
        (omega (arith, more, size, long))
      ∙ parse_entries_stuck es fuel (p + length (encode e)) (with_entries kern_offset (e ∷ []) s)
          oks (Reads-right mem p (encode e) (encode_all es) r) (omega (arith, more, size))
          (ap mem (omega (arith, size)) ∙ here)

-- A MADT in memory, with an address of the local APIC that is not 0 and any list of entries:
-- `ParseTableAPIC` ends after as many rounds as there are entries, and has added the processors and the
-- I/O APICs of the table, in their order, and counted the processors.
pub parse_table_apic-encode :
    (fuel kern_offset : ℕ) (mem : ℕ → ℕ) (header : ℕ) (es : List Entry) (s : Acpi)
    → AllEntries es
    → Reads mem (header + madt_size) (encode_all es)
    → load32 mem (header + 4) ≡ madt_size + length (encode_all es)
    → load32 mem (header + header_size) ≢ 0
    → length es ≤ fuel
    → parse_table_apic fuel kern_offset mem header s
      ≡ some (
          with_entries kern_offset es (record s {
            local_apic_address =
                some (kernel_pointer kern_offset (load32 mem (header + header_size)));
          }))
unfolding parse_table_apic
parse_table_apic-encode fuel kern_offset mem header es s ok r size found enough =
    rw (==_ne (load32 mem (header + header_size)) 0 found, size)
      (parse_all kern_offset mem (header + (madt_size + length (encode_all es))) fuel
        (header + madt_size)
        (record s {
          local_apic_address =
              some (kernel_pointer kern_offset (load32 mem (header + header_size)));
        })
        es ok r (omega arith) enough)
