-- ===== src/Clock/Sample.antt =====
-- The first loop of `BootTime`: a processor's clock from the record that the hypervisor keeps for it, and
-- the time stamp counter.
use Prim.Native.Nat.{bit_and}
use chestnut.Base.{
  ℕ, zero, suc, ◌+◌, ◌-◌, ◌*◌, ◌%◌, ◌^◌, ◌≤◌, ◌<◌, ◌≡◌, ◌≢◌, true, false, ltb, leb, ◌⊎◌, refl, ap,
  subst, inl, inr, arith, Bool, not, ◌&&◌, ◌||◌, Bool-cases, Option, none, some, ◌==◌,
  if◌then◌else◌,
}
use chestnut.Clock.{Caller, stable, ready, processor_nano, scale_time}
use chestnut.Clock.Snapshot.{parity}

-- `KvmCpuTimeInfo`.
pub record CpuTimeInfo : Type 0 where
  pub version : ℕ
  pub tsc_ts : ℕ
  pub sys_time : ℕ
  pub tsc_to_sys_mul : ℕ
  pub tsc_shift : ℕ
  pub flags : ℕ

-- `time_info.sys_time + ProcessorNano(ReadTimeStamp() - time_info.tsc_ts)`, of what was read; the shift
-- is read up to three times.
unfoldable pub scaled : ℕ → ℕ → ℕ → ℕ → ℕ → ℕ → ℕ → ℕ
scaled sys_time tsc tsc_ts first second third tsc_to_sys_mul =
    (sys_time + scale_time first second third tsc_to_sys_mul ((tsc + (2 ^ 64 - tsc_ts)) % 2 ^ 64))
    % 2 ^ 64

-- What the reads of one round give, at instants `t + 1` to `t + 8`, of the record that `info` gives at
-- each instant, and of the counter: the time and the flags. At an instant may be no read, since
-- the shift is not always read three times.
unfoldable pub readings : (ℕ → CpuTimeInfo) → (ℕ → ℕ) → ℕ → ℕ × ℕ
readings info tsc t = (
  scaled (info (t + 1)).sys_time (tsc (t + 2)) (info (t + 3)).tsc_ts (info (t + 4)).tsc_shift
      (info (t + 5)).tsc_shift (info (t + 6)).tsc_shift (info (t + 7)).tsc_to_sys_mul,
  (info (t + 8)).flags,
)

-- One round of the loop, at instants `t` to `t + 10`. The test of the loop reads the version once more.
unfoldable pub sample_round : (ℕ → CpuTimeInfo) → (ℕ → ℕ) → ℕ → Option (ℕ × ℕ)
sample_round info tsc t =
    let v1 = (info t).version in
    let v2 = (info (t + 9)).version in
    let v3 = (info (t + 10)).version in
    if (v3 % 2 == 1) || not (v1 == v2) then none else some (readings info tsc t)

-- The loop, for at most `fuel` rounds.
unfoldable pub sample : ℕ → (ℕ → CpuTimeInfo) → (ℕ → ℕ) → ℕ → Option (ℕ × ℕ)
sample zero info tsc t = none
sample (suc fuel) info tsc t = elim (sample_round info tsc t) [
  | none ↦ sample fuel info tsc (t + 11)
  | some r ↦ some r
]

-- `use_hw_stable && (flags & kTscStableBit) != 0`.
unfoldable pub is_stable : Bool → ℕ → Bool
is_stable use_hw_stable flags = use_hw_stable && not (bit_and flags 1 == 0)

-- `BootTime` up to its second loop: it has returned, or it goes on with a time.
unfoldable pub enter : Bool → Option (ℕ × ℕ) → Option Caller
enter use_hw_stable none = none
enter use_hw_stable (some (time, flags)) =
    some (if is_stable use_hw_stable flags then stable time else ready time)

-- What the hypervisor promises: as long as the version is the same and even, the record is.
pub record KeepsVersion (info : ℕ → CpuTimeInfo) : Type 0 where
  pub settled :
      (t k u : ℕ)
      → k ≤ u
      → (info t).version % 2 ≡ 0
      → (info t).version ≡ (info (t + u)).version
      → info (t + k) ≡ info t

-- The time by the record of an instant, and a value of the counter.
unfoldable pub time_at : (ℕ → CpuTimeInfo) → ℕ → ℕ → ℕ
time_at info tsc u =
    ((info u).sys_time
      + processor_nano (info u).tsc_shift (info u).tsc_to_sys_mul
          ((tsc + (2 ^ 64 - (info u).tsc_ts)) % 2 ^ 64))
    % 2 ^ 64

-- The host leaves the record alone during the round that begins at `t`.
abbrev pub Quiet : (ℕ → CpuTimeInfo) → ℕ → Type 0
Quiet info t =
    ((info t).version % 2 ≡ 0)
    × ((info t).version ≡ (info (t + 9)).version)
    × ((info (t + 10)).version % 2 ≡ 0)

-- An update is on its way during the reads of the round, and is over when the test reads the version.
abbrev pub Torn : (ℕ → CpuTimeInfo) → ℕ → Type 0
Torn info t =
    ((info t).version % 2 ≡ 1)
    × ((info t).version ≡ (info (t + 9)).version)
    × ((info (t + 10)).version % 2 ≡ 0)

-- The result of a round that ends the loop.
abbrev pub Ends : (ℕ → CpuTimeInfo) → (ℕ → ℕ) → ℕ → Option (ℕ × ℕ) → Type 0
Ends info tsc t r =
    (Quiet info t × (r ≡ some (time_at info (tsc (t + 2)) t, (info t).flags)))
    ⊎ (Torn info t × (r ≡ some (readings info tsc t)))

-- Reads of the same shift are one.
scale_time-same :
    (shift mul time : ℕ) → scale_time shift shift shift mul time ≡ processor_nano shift mul time
unfolding scale_time processor_nano
scale_time-same shift mul time = elim (Bool-cases (shift == 0)) [
  | inl none_at_all ↦
      let positive : (ltb 0 shift && ltb shift 128) ≡ false = ground arith in
      let negative : leb 128 shift ≡ false = ground arith in
      rw (none_at_all, positive, negative) refl
  | inr some_shift ↦ elim (Bool-cases (ltb shift 128)) [
    | inl left ↦
        let positive : ltb 0 shift ≡ true = ground arith in rw (some_shift, left, positive) refl
    | inr right ↦
        let positive : (ltb 0 shift && ltb shift 128) ≡ false = ground arith in
        let negative : leb 128 shift ≡ true = ground arith in
        rw (some_shift, positive, negative, right) refl
  ]
]

round-cases :
    (info : ℕ → CpuTimeInfo) (tsc : ℕ → ℕ) (t : ℕ)
    → KeepsVersion info
    → Ends info tsc t (sample_round info tsc t)
      ⊎ ((Quiet info t → ⊥) × (sample_round info tsc t ≡ none))
unfolding sample_round readings time_at scaled
round-cases info tsc t keeps =
    elim (Bool-cases
      (((info (t + 10)).version % 2 == 1) || not ((info t).version == (info (t + 9)).version))) [
        | inl again ↦ inr ((λ q. ground (arith, q.0, q.1, q.2)), rw again refl)
        | inr done ↦
            let same : (info t).version ≡ (info (t + 9)).version = ground arith in
            let over : (info (t + 10)).version % 2 ≡ 0 = ground arith in
            elim (parity (info t).version) [
              | inr odd ↦ inl (inr ((odd, same, over), rw done refl))
              | inl even ↦
                  let still = λ (k : ℕ) (le : k ≤ 9). keeps.settled t k 9 le even same in
                  inl (
                    inl (
                      (even, same, over),
                      rw
                          (
                            done,
                            still 1 (omega arith),
                            still 3 (omega arith),
                            still 4 (omega arith),
                            still 5 (omega arith),
                            still 6 (omega arith),
                            still 7 (omega arith),
                            still 8 (omega arith),
                            scale_time-same (info t).tsc_shift (info t).tsc_to_sys_mul
                                ((tsc (t + 2) + (2 ^ 64 - (info t).tsc_ts)) % 2 ^ 64),
                          )
                          refl,
                    ))
            ]
      ]

sample-Ends :
    (fuel : ℕ) (info : ℕ → CpuTimeInfo) (tsc : ℕ → ℕ) (t : ℕ)
    → KeepsVersion info
    → (k : ℕ) → k < fuel
    → Quiet info (t + 11 * k)
    → (u : ℕ) × (t ≤ u) × (u ≤ t + 11 * k) × Ends info tsc u (sample fuel info tsc t)
unfolding sample
sample-Ends zero info tsc t keeps k lt quiet = absurd (omega arith)
sample-Ends (suc fuel) info tsc t keeps k lt quiet = elim (round-cases info tsc t keeps) [
  | inl (inl (now, e)) ↦ (t, omega arith, omega arith, inl (now, rw (e, sample) refl))
  | inl (inr (torn, e)) ↦ (t, omega arith, omega arith, inr (torn, rw (e, sample) refl))
  | inr (busy, e) ↦
      let later : k ≢ 0 = λ z. busy (subst (Quiet info) (omega (arith, z)) quiet) in
      let z : t + 11 * k ≡ t + 11 + 11 * (k - 1) = omega (arith, later) in
      let (u, after, until, ends) =
        sample-Ends fuel info tsc (t + 11) keeps (k - 1) (omega (arith, later))
          (subst (Quiet info) z quiet) in
      (u, omega arith, omega (arith, z), rw (e, sample) ends)
]

-- How a call leaves the first loop, with a time and flags.
abbrev pub goes_on : Bool → ℕ × ℕ → Caller
goes_on use_hw_stable (time, flags) =
    if is_stable use_hw_stable flags then stable time else ready time

-- `BootTime` leaves its first loop if, in one of its rounds, the host leaves the record alone. Its time
-- is by the record of one instant and by the counter within that round, unless the host's update
-- has the same odd version at the first two reads of the version in the round that ends the loop,
-- and is over at the third one: then what was read may be parts of two records. The time is returned
-- at once if the caller asked for that and the flags say that the counter is stable.
pub enter-time_at :
    (fuel : ℕ) (use_hw_stable : Bool) (info : ℕ → CpuTimeInfo) (tsc : ℕ → ℕ) (t : ℕ)
    → KeepsVersion info
    → (k : ℕ) → k < fuel
    → Quiet info (t + 11 * k)
    → (u : ℕ) × (t ≤ u)
      × (u ≤ t + 11 * k)
      × ((Quiet info u
            × (enter use_hw_stable (sample fuel info tsc t)
                ≡ some (goes_on use_hw_stable (time_at info (tsc (u + 2)) u, (info u).flags))))
          ⊎ (Torn info u
              × (enter use_hw_stable (sample fuel info tsc t)
                  ≡ some (goes_on use_hw_stable (readings info tsc u)))))
unfolding enter
enter-time_at fuel use_hw_stable info tsc t keeps k lt quiet =
    let (u, after, until, ends) = sample-Ends fuel info tsc t keeps k lt quiet in
    elim ends [
      | inl (now, e) ↦ (u, after, until, inl (now, ap (enter use_hw_stable) e))
      | inr (torn, e) ↦ (u, after, until, inr (torn, ap (enter use_hw_stable) e))
    ]
