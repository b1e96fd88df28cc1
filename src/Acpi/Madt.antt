-- ===== src/Acpi/Madt.antt =====
-- The entries of the MADT: what they are in memory, and what the loop of `ParseTableAPIC` makes of them.
use chestnut.Base.Bits.{bit_and_one}
use mathlib.Core.List.{append-nil}
use chestnut.Base.{
  ℕ, zero, suc, ◌+◌, ◌/◌, ◌%◌, ◌^◌, ◌<◌, ◌≡◌, ◌≢◌, refl, ap, ◌∙◌, List, [], ◌∷◌, ◌++◌, length,
  get_or, length-append, ◌==◌, arith, ==_ne,
}
use chestnut.Acpi.{
  load32, kernel_pointer, AcpiCpu, FoundIoApic, Acpi, add_cpu, add_io_apic, parse_entry,
}

-- An entry. The others have a type of their own and a body.
pub data Entry : Type 0 where
  local_apic_entry : (processor apic_id flags : ℕ) → Entry
  io_apic_entry : (id address interrupt_base : ℕ) → Entry
  other_entry : (kind : ℕ) → (body : List ℕ) → Entry

abbrev pub word : ℕ → List ℕ
word n = n % 256 ∷ n / 256 % 256 ∷ n / 65536 % 256 ∷ n / 16777216 % 256 ∷ []

-- The bytes of an entry: type, length, fields.
abbrev pub encode : Entry → List ℕ
encode (local_apic_entry processor apic_id flags) = 0 ∷ 8 ∷ processor ∷ apic_id ∷ word flags
encode (io_apic_entry id address interrupt_base) =
    1 ∷ 12 ∷ id ∷ 0 ∷ word address ++ word interrupt_base
encode (other_entry kind body) = kind ∷ (2 + length body) ∷ body

abbrev pub encode_all : List Entry → List ℕ
encode_all [] = []
encode_all (e ∷ es) = encode e ++ encode_all es

abbrev pub IsEntry : Entry → Type 0
IsEntry (local_apic_entry processor apic_id flags) = flags < 2 ^ 32
IsEntry (io_apic_entry id address interrupt_base) = (address < 2 ^ 32) × (interrupt_base < 2 ^ 32)
IsEntry (other_entry kind body) = (kind ≢ 0) × (kind ≢ 1)

abbrev pub AllEntries : List Entry → Type 0
AllEntries [] = Unit {0}
AllEntries (e ∷ es) = IsEntry e × AllEntries es

-- The bytes are in memory from an address on.
abbrev pub Reads : (ℕ → ℕ) → ℕ → List ℕ → Type 0
Reads mem p bytes = (i : ℕ) → i < length bytes → mem (p + i) ≡ get_or bytes i 0

-- What the entries say.
abbrev pub cpus_of : List Entry → List AcpiCpu
cpus_of [] = []
cpus_of (local_apic_entry processor apic_id flags ∷ es) =
    record { cpu_id = processor; local_apic_id = apic_id; enabled = 1 == flags % 2 } ∷ cpus_of es
cpus_of (io_apic_entry id address interrupt_base ∷ es) = cpus_of es
cpus_of (other_entry kind body ∷ es) = cpus_of es

abbrev pub io_apics_of : ℕ → List Entry → List FoundIoApic
io_apics_of kern_offset [] = []
io_apics_of kern_offset (local_apic_entry processor apic_id flags ∷ es) = io_apics_of kern_offset es
io_apics_of kern_offset (io_apic_entry id address interrupt_base ∷ es) =
    record {
      id = id;
      address = kernel_pointer kern_offset address;
      interrupt_base = interrupt_base;
    }
    ∷ io_apics_of kern_offset es
io_apics_of kern_offset (other_entry kind body ∷ es) = io_apics_of kern_offset es

-- The state with what the entries say added to it.
abbrev pub with_entries : ℕ → List Entry → Acpi → Acpi
with_entries kern_offset es s = record s {
  cpus = s.cpus ++ cpus_of es;
  io_apics = s.io_apics ++ io_apics_of kern_offset es;
  cpu_count = s.cpu_count + length (cpus_of es);
}

get_or_left : (xs ys : List ℕ) (i : ℕ) → i < length xs → get_or (xs ++ ys) i 0 ≡ get_or xs i 0
get_or_left [] ys i h = elim h [ ]
get_or_left (x ∷ xs) ys zero h = refl
get_or_left (x ∷ xs) ys (suc i) h = get_or_left xs ys i (omega arith)

get_or_right : (xs ys : List ℕ) (i : ℕ) → get_or (xs ++ ys) (length xs + i) 0 ≡ get_or ys i 0
get_or_right [] ys i = ap (λ (x : ℕ). get_or ys x 0) (omega arith)
get_or_right (x ∷ xs) ys i =
    let e : suc (length xs) + i ≡ suc (length xs + i) = omega arith in
    ap (λ (n : ℕ). get_or (x ∷ (xs ++ ys)) n 0) e ∙ get_or_right xs ys i

pub Reads-left : (mem : ℕ → ℕ) (p : ℕ) (xs ys : List ℕ) → Reads mem p (xs ++ ys) → Reads mem p xs
Reads-left mem p xs ys r i h = r i (omega (arith, h, length-append xs ys)) ∙ get_or_left xs ys i h

pub Reads-right :
    (mem : ℕ → ℕ) (p : ℕ) (xs ys : List ℕ) → Reads mem p (xs ++ ys) → Reads mem (p + length xs) ys
Reads-right mem p xs ys r i h =
    let e : p + length xs + i ≡ p + (length xs + i) = omega arith in
    ap mem e ∙ (r (length xs + i) (omega (arith, h, length-append xs ys)) ∙ get_or_right xs ys i)

-- Four bytes of a word are loaded as the word.
load32-word :
    (mem : ℕ → ℕ) (a n : ℕ)
    → n < 2 ^ 32
    → mem a ≡ n % 256
    → mem (a + 1) ≡ n / 256 % 256
    → mem (a + 2) ≡ n / 65536 % 256
    → mem (a + 3) ≡ n / 16777216 % 256
    → load32 mem a ≡ n
unfolding load32
load32-word mem a n lt e0 e1 e2 e3 = omega (arith, lt, e0, e1, e2, e3)

-- A byte of an entry.
byte :
    (mem : ℕ → ℕ) (p : ℕ) (bytes : List ℕ) (i : ℕ)
    → Reads mem p bytes
    → i < length bytes
    → mem (p + i) ≡ get_or bytes i 0
byte mem p bytes i r = r i

-- A word in the bytes of an entry.
load32-Reads :
    (mem : ℕ → ℕ) (p k n : ℕ) (bytes : List ℕ)
    → Reads mem p bytes
    → n < 2 ^ 32
    → k + 3 < length bytes
    → get_or bytes k 0 ≡ n % 256
    → get_or bytes (k + 1) 0 ≡ n / 256 % 256
    → get_or bytes (k + 2) 0 ≡ n / 65536 % 256
    → get_or bytes (k + 3) 0 ≡ n / 16777216 % 256
    → load32 mem (p + k) ≡ n
load32-Reads mem p k n bytes r lt long e0 e1 e2 e3 =
    load32-word mem (p + k) n lt (r k (omega arith) ∙ e0)
      (ap mem (omega arith) ∙ (r (k + 1) (omega arith) ∙ e1))
      (ap mem (omega arith) ∙ (r (k + 2) (omega arith) ∙ e2))
      (ap mem (omega arith) ∙ (r (k + 3) long ∙ e3))

start : (mem : ℕ → ℕ) (p : ℕ) (b : ℕ) (bytes : List ℕ) → Reads mem p (b ∷ bytes) → mem p ≡ b
start mem p b bytes r = let e : p ≡ p + 0 = omega arith in ap mem e ∙ r 0 (omega arith)

module _ (kern_offset : ℕ) (mem : ℕ → ℕ) (p : ℕ) (s : Acpi) where
  -- One round: what the entry says is added.
  pub parse_one :
      (e : Entry)
      → IsEntry e
      → Reads mem p (encode e)
      → parse_entry kern_offset mem p s ≡ with_entries kern_offset (e ∷ []) s
  unfolding parse_entry add_cpu add_io_apic
  parse_one (local_apic_entry processor apic_id flags) ok r =
      let bytes = encode (local_apic_entry processor apic_id flags) in
      let flags_at : load32 mem (p + 4) ≡ flags =
        load32-Reads mem p 4 flags bytes r ok (omega arith) refl refl refl refl in
      let e2 : mem (p + 2) ≡ processor = r 2 (omega arith) in
      let e3 : mem (p + 3) ≡ apic_id = r 3 (omega arith) in
      rw
        (
          start mem p 0 (8 ∷ processor ∷ apic_id ∷ word flags) r,
          e2,
          e3,
          flags_at,
          bit_and_one flags,
          append-nil s.io_apics,
        )
        refl
  parse_one (io_apic_entry id address interrupt_base) (small, small_base) r =
      let bytes = encode (io_apic_entry id address interrupt_base) in
      let address_at : load32 mem (p + 4) ≡ address =
        load32-Reads mem p 4 address bytes r small (omega arith) refl refl refl refl in
      let base_at : load32 mem (p + 8) ≡ interrupt_base =
        load32-Reads mem p 8 interrupt_base bytes r small_base (omega arith) refl refl refl refl in
      let e2 : mem (p + 2) ≡ id = r 2 (omega arith) in
      let zero_more : s.cpu_count + 0 ≡ s.cpu_count = omega arith in
      rw
        (
          start mem p 1 (12 ∷ id ∷ 0 ∷ word address ++ word interrupt_base) r,
          e2,
          address_at,
          base_at,
          append-nil s.cpus,
          zero_more,
        )
        refl
  parse_one (other_entry kind body) (no_local, no_io) r =
      let zero_more : s.cpu_count + 0 ≡ s.cpu_count = omega arith in
      rw
        (
          start mem p kind ((2 + length body) ∷ body) r,
          ==_ne kind 0 no_local,
          ==_ne kind 1 no_io,
          append-nil s.cpus,
          append-nil s.io_apics,
          zero_more,
        )
        refl

  -- The next entry is behind it.
  pub next_entry : (e : Entry) → Reads mem p (encode e) → mem (p + 1) ≡ length (encode e)
  next_entry (local_apic_entry processor apic_id flags) r = r 1 (omega arith)
  next_entry (io_apic_entry id address interrupt_base) r = r 1 (omega arith)
  next_entry (other_entry kind body) r = omega (arith, r 1 (omega arith))
