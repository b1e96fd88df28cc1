-- ===== src/Clock.antt =====
-- kern/kvm-clock.cc: the clocks that the hypervisor keeps in the guest's memory.
pub mod Snapshot
pub mod Monotone
pub mod Sample
mod Examples
use chestnut.Base.{
  ℕ, zero, suc, ◌+◌, ◌-◌, ◌*◌, ◌/◌, ◌%◌, ◌^◌, ◌≡◌, Bool, true, false, ◌&&◌, ◌||◌, not, Option, none,
  some, List, [], ◌∷◌, ltb, leb, ◌==◌, if◌then◌else◌, store,
}

-- `KvmWallClockInfo`.
pub record WallClockInfo : Type 0 where
  pub version : ℕ
  pub sec : ℕ
  pub nsec : ℕ

-- One round of `BootClock`, whose reads are at instants `t` to `t + 4`, while the host writes: `info`
-- gives what is in memory at each instant. The test of the loop reads the version once more.
unfoldable pub boot_clock_round : (ℕ → WallClockInfo) → ℕ → Option ℕ
boot_clock_round info t =
    let v1 = (info t).version in
    let res = ((info (t + 1)).sec * 1000000000 % 2 ^ 64 + (info (t + 2)).nsec) % 2 ^ 64 in
    let v2 = (info (t + 3)).version in
    let v3 = (info (t + 4)).version in if (v3 % 2 == 1) || not (v1 == v2) then none else some res

-- `BootClock`, for at most `fuel` rounds.
unfoldable pub boot_clock : ℕ → (ℕ → WallClockInfo) → ℕ → Option ℕ
boot_clock zero info t = none
boot_clock (suc fuel) info t = elim (boot_clock_round info t) [
  | none ↦ boot_clock fuel info (t + 5)
  | some res ↦ some res
]

-- `ProcessorNano`; `tsc_shift` is the byte of an `int8`.
unfoldable pub processor_nano : ℕ → ℕ → ℕ → ℕ
processor_nano tsc_shift tsc_to_sys_mul time =
    let shifted =
      if tsc_shift == 0
      then time
      else if ltb tsc_shift 128
      then time * 2 ^ tsc_shift % 2 ^ 64
      else time / 2 ^ (256 - tsc_shift) in
    shifted * tsc_to_sys_mul / 2 ^ 32 % 2 ^ 64

-- `ProcessorNano`, where each read of `tsc_shift` has its own value: one for the test above 0, one for
-- the shift or for the test below 0, and one for the shift behind that.
unfoldable pub scale_time : ℕ → ℕ → ℕ → ℕ → ℕ → ℕ
scale_time first second third tsc_to_sys_mul time =
    let shifted =
      if ltb 0 first && ltb first 128
      then time * 2 ^ second % 2 ^ 64
      else if leb 128 second
      then time / 2 ^ (256 - third)
      else time in
    shifted * tsc_to_sys_mul / 2 ^ 32 % 2 ^ 64

-- A caller of `BootTime` behind the first loop: it has returned at once, since the counter is stable,
-- or it goes through the second loop. There it has its `time`, it has also loaded
-- `last_boot_time`, or it has returned.
pub data Caller : Type 0 where
  stable : ℕ → Caller
  ready : ℕ → Caller
  loaded : ℕ → ℕ → Caller
  returned : ℕ → Caller

-- The callers of one `KvmSystemTime`, on whatever processors, and the `last_boot_time` that they share.
pub record Clock : Type 0 where
  pub last_boot_time : ℕ
  pub callers : ℕ → Caller

-- The next step of a caller: to load and compare, or `__sync_val_compare_and_swap`.
unfoldable pub advance : Caller → ℕ → Caller × ℕ
advance (stable time) current = (stable time, current)
advance (ready time) current =
    (if leb time current then returned current else loaded time current, current)
advance (loaded time last) current = (
  if current == last then returned time else ready time,
  if current == last then time else current,
)
advance (returned time) current = (returned time, current)

-- Caller `i` takes its next step.
unfoldable pub step : ℕ → Clock → Clock
step i c =
    let (caller, current) = advance (c.callers i) c.last_boot_time in
    record { last_boot_time = current; callers = store c.callers i caller }

-- A run, where the list says whose turn it is.
unfoldable pub run : List ℕ → Clock → Clock
run [] c = c
run (i ∷ turns) c = run turns (step i c)
