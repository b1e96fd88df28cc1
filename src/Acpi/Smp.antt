-- ===== src/Acpi/Smp.antt =====
-- `BootSmp` (kern/acpi.cc) as the writes to the registers of the local APIC. `counter n k` is what
-- `ReceiveCpuCounter` gives at the `k`th time after `n` processors were started: the started processor
-- sets it, in assembly.
use chestnut.Base.{
  ℕ, zero, suc, ◌+◌, ◌%◌, ◌^◌, ◌≤◌, ◌<◌, ◌≡◌, ◌≢◌, refl, ap, ◌∙◌, inl, inr, Bool, true, false,
  Bool-cases, Option, none, some, List, [], ◌∷◌, ◌++◌, length, ◌==◌, ne_of_==, if◌then◌else◌, arith,
}
use chestnut.Apic.{send_apic_init, send_apic_startup}
use chestnut.Acpi.{AcpiCpu}

-- The first loop.
unfoldable pub send_inits : ℕ → List AcpiCpu → List (ℕ × ℕ)
send_inits bsp_apic_id [] = []
send_inits bsp_apic_id (cpu ∷ cpus) =
    let rest = send_inits bsp_apic_id cpus in
    if cpu.local_apic_id == bsp_apic_id
    then rest
    else send_apic_init (cpu.local_apic_id % 2 ^ 8) ++ rest

-- The wait loop, for at most `fuel` rounds: whether it ends.
unfoldable pub wait_counter : ℕ → (ℕ → ℕ → ℕ) → ℕ → ℕ → Bool
wait_counter zero counter started k = false
wait_counter (suc fuel) counter started k =
    let rest = wait_counter fuel counter started (suc k) in
    if counter started k == started then true else rest

-- The second loop, which starts at vector 8.
unfoldable pub send_startups : ℕ → (ℕ → ℕ → ℕ) → ℕ → ℕ → List AcpiCpu → Option (List (ℕ × ℕ))
send_startups fuel counter bsp_apic_id started [] = some []
send_startups fuel counter bsp_apic_id started (cpu ∷ cpus) =
    let same = send_startups fuel counter bsp_apic_id started cpus in
    let rest = send_startups fuel counter bsp_apic_id ((started + 1) % 2 ^ 16) cpus in
    if cpu.local_apic_id == bsp_apic_id
    then same
    else if wait_counter fuel counter ((started + 1) % 2 ^ 16) 0
    then elim rest [
      | none ↦ none
      | some writes ↦ some (send_apic_startup (cpu.local_apic_id % 2 ^ 8) 8 ++ writes)
    ]
    else none

-- `BootSmp`, where `bsp_apic_id` is what `Id()` reads.
unfoldable pub boot_smp : ℕ → (ℕ → ℕ → ℕ) → ℕ → List AcpiCpu → Option (List (ℕ × ℕ))
boot_smp fuel counter bsp_apic_id cpus = elim (send_startups fuel counter bsp_apic_id 0 cpus) [
  | none ↦ none
  | some writes ↦ some (send_inits bsp_apic_id cpus ++ writes)
]

-- The processors to start, and the writes of a command for each of them.
abbrev pub others : ℕ → List AcpiCpu → List ℕ
others bsp_apic_id [] = []
others bsp_apic_id (cpu ∷ cpus) =
    if cpu.local_apic_id == bsp_apic_id
    then others bsp_apic_id cpus
    else cpu.local_apic_id % 2 ^ 8 ∷ others bsp_apic_id cpus

abbrev pub each : (ℕ → List (ℕ × ℕ)) → List ℕ → List (ℕ × ℕ)
each command [] = []
each command (id ∷ ids) = command id ++ each command ids

-- Each processor sets the counter within the rounds of the wait.
abbrev pub Answers : ℕ → (ℕ → ℕ → ℕ) → ℕ → Type 0
Answers fuel counter most = (n : ℕ) → 1 ≤ n → n ≤ most → (k : ℕ) × (k < fuel) × (counter n k ≡ n)

send_inits-each :
    (bsp : ℕ) (cpus : List AcpiCpu) → send_inits bsp cpus ≡ each send_apic_init (others bsp cpus)
unfolding send_inits
send_inits-each bsp [] = refl
send_inits-each bsp (cpu ∷ cpus) = elim (Bool-cases (cpu.local_apic_id == bsp)) [
  | inl same ↦ rw same (send_inits-each bsp cpus)
  | inr other ↦ rw other (
      ap (λ (x : List (ℕ × ℕ)). send_apic_init (cpu.local_apic_id % 2 ^ 8) ++ x)
        (send_inits-each bsp cpus))
]

wait_ends :
    (fuel : ℕ) (counter : ℕ → ℕ → ℕ) (n j k : ℕ)
    → j ≤ k
    → k < j + fuel
    → counter n k ≡ n
    → wait_counter fuel counter n j ≡ true
unfolding wait_counter
wait_ends zero counter n j k le lt here = absurd (omega (arith, le, lt))
wait_ends (suc fuel) counter n j k le lt here = elim (Bool-cases (counter n j == n)) [
  | inl now ↦ rw now refl
  | inr later ↦
      let off : j ≢ k = λ e. ne_of_== (counter n j) n later (ap (counter n) e ∙ here) in
      rw later
        (wait_ends fuel counter n (suc j) k (omega (arith, le, off)) (omega (arith, lt)) here)
]

send_startups-each :
    (fuel : ℕ) (counter : ℕ → ℕ → ℕ) (bsp started : ℕ) (cpus : List AcpiCpu)
    → Answers fuel counter (started + length cpus)
    → started + length cpus < 2 ^ 16
    → send_startups fuel counter bsp started cpus
      ≡ some (each (λ id. send_apic_startup id 8) (others bsp cpus))
unfolding send_startups
send_startups-each fuel counter bsp started [] answers few = refl
send_startups-each fuel counter bsp started (cpu ∷ cpus) answers few =
    elim (Bool-cases (cpu.local_apic_id == bsp)) [
      | inl same ↦ rw same (
          send_startups-each fuel counter bsp started cpus
            (λ n ge le. answers n ge (omega (arith, le))) (omega (arith, few)))
      | inr other ↦
          let next : (started + 1) % 2 ^ 16 ≡ started + 1 = omega (arith, few) in
          let (k, lt, here) = answers (started + 1) (omega arith) (omega arith) in
          let ended =
            wait_ends fuel counter (started + 1) 0 k (omega arith) (omega (arith, lt)) here in
          let rest =
            send_startups-each fuel counter bsp (started + 1) cpus
              (λ n ge le. answers n ge (omega (arith, le))) (omega (arith, few)) in
          rw (other, next, ended, rest) refl
    ]

-- When every started processor sets the counter within the rounds of a wait, `BootSmp` ends: every processor of
-- the table whose id is not the value of the ID register, as `Id` reads it, has been sent one INIT command, in
-- the order of the table, and then one STARTUP command, in that order, and no other has. The register has
-- the id of the processor that boots in its bits from 24 on: that processor is left out only
-- if its id is 0.
pub boot_smp-each :
    (fuel : ℕ) (counter : ℕ → ℕ → ℕ) (bsp_apic_id : ℕ) (cpus : List AcpiCpu)
    → Answers fuel counter (length cpus)
    → length cpus < 2 ^ 16
    → boot_smp fuel counter bsp_apic_id cpus
      ≡ some (
          each send_apic_init (others bsp_apic_id cpus)
          ++ each (λ id. send_apic_startup id 8) (others bsp_apic_id cpus))
unfolding boot_smp
boot_smp-each fuel counter bsp_apic_id cpus answers few =
    rw
      (
        boot_smp,
        send_startups-each fuel counter bsp_apic_id 0 cpus
            (λ n ge le. answers n ge (omega (arith, le))) (omega (arith, few)),
        send_inits-each bsp_apic_id cpus,
      )
      refl
