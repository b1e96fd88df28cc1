-- ===== src/Clock/Examples.antt =====
-- The clock theorems at concrete hosts and callers.
use chestnut.Base.{
  ◌⊎◌, true, false, Bool-cases, inl, inr, ◌^◌, ℕ, zero, suc, ◌+◌, ◌*◌, ◌≤◌, ◌≡◌, refl, arith, ltb,
  some, if◌then◌else◌,
}
use chestnut.Clock.{
  WallClockInfo, boot_clock, boot_clock_round, Caller, ready, loaded, returned, Clock,
}
use chestnut.Clock.Snapshot.{KeepsVersion, Ends, boot_clock-nano_at}
use chestnut.Clock.Sample.{CpuTimeInfo, sample, readings, goes_on, enter, time_at, enter-time_at}
use chestnut.Clock.Sample

-- A host that is in the middle of an update at first, and is done at instant 2.
abbrev host : ℕ → WallClockInfo
host t = record { version = if ltb t 2 then 1 else 2; sec = 7; nsec = if ltb t 2 then 0 else 5 }

host-KeepsVersion : KeepsVersion host
host-KeepsVersion = record {
  settled = λ t k u le even same. (refl, ground (arith, even));
  sec_small = λ t. omega arith;
  nsec_small = λ t. ground arith;
}

boot_clock-nano_at_example : (u : ℕ) × (0 ≤ u) × (u ≤ 0 + 5 * 1) × Ends host u (boot_clock 2 host 0)
boot_clock-nano_at_example =
    boot_clock-nano_at 2 host 0 host-KeepsVersion 1 (omega arith) (refl, refl, refl)

-- An update that ends between the last two reads of the version: the seconds are from before it, the
-- nanoseconds from behind it, and the result is almost a second before both times.
abbrev late_host : ℕ → WallClockInfo
late_host t = record {
  version = if ltb t 4 then 1 else 2;
  sec = if ltb t 2 then 7 else 8;
  nsec = if ltb t 2 then 999999999 else 0;
}

torn_time : boot_clock 1 late_host 0 ≡ some 7000000000
unfolding boot_clock boot_clock_round
torn_time = refl

-- Caller 0 has returned 40, caller 1 has 30 and has loaded nothing, caller 2 has 50 and has loaded 40.
abbrev caller : ℕ → Caller
caller zero = returned 40
caller (suc zero) = ready 30
caller (suc (suc zero)) = loaded 50 40
caller (suc (suc (suc i))) = ready 0

abbrev three_callers : Clock
three_callers = record { last_boot_time = 40; callers = caller }

-- A host that is in the middle of an update at first, and a counter that counts the instants.
abbrev cpu_host : ℕ → CpuTimeInfo
cpu_host t = record {
  version = if ltb t 2 then 1 else 2;
  tsc_ts = if ltb t 2 then 0 else 4;
  sys_time = if ltb t 2 then 0 else 100;
  tsc_to_sys_mul = if ltb t 2 then 0 else 2 ^ 31;
  tsc_shift = if ltb t 2 then 0 else 1;
  flags = if ltb t 2 then 0 else 1;
}

cpu_host-KeepsVersion : Sample.KeepsVersion cpu_host
cpu_host-KeepsVersion = record {
  settled = λ t k u le even same. elim (Bool-cases (ltb t 2)) [
    | inl early ↦ absurd (ground (arith, even))
    | inr late ↦ let later : ltb (t + k) 2 ≡ false = ground arith in rw (late, later) refl
  ];
}

enter-time_at_example :
    (u : ℕ) × (0 ≤ u)
    × (u ≤ 0 + 11 * 1)
    × ((Sample.Quiet cpu_host u
          × (enter true (sample 2 cpu_host (λ t. t) 0)
              ≡ some (goes_on true (time_at cpu_host (u + 2) u, (cpu_host u).flags))))
        ⊎ (Sample.Torn cpu_host u
            × (enter true (sample 2 cpu_host (λ t. t) 0)
                ≡ some (goes_on true (readings cpu_host (λ t. t) u)))))
enter-time_at_example =
    enter-time_at 2 true cpu_host (λ t. t) 0 cpu_host-KeepsVersion 1 (omega arith)
      (refl, refl, refl)
