-- ===== src/Clock/Snapshot.antt =====
-- The version protocol of `BootClock`, and the scaling of `ProcessorNano`.
use native.Mathlib.Nat.{mul-le-mul}
use chestnut.Base.{
  ℕ, zero, suc, ◌+◌, ◌-◌, ◌*◌, ◌/◌, ◌%◌, ◌^◌, ◌≤◌, ◌<◌, ◌≡◌, ◌≢◌, ◌⊎◌, refl, ap, subst, inl, inr,
  arith, true, false, not, ◌||◌, Bool-cases, Option, none, some, ltb, ◌==◌,
}
use chestnut.Clock.{WallClockInfo, boot_clock_round, boot_clock, processor_nano}

-- What the hypervisor promises of the record, whose fields are of 32 bits: as long as the version is
-- the same and even, the time is the same.
pub record KeepsVersion (info : ℕ → WallClockInfo) : Type 0 where
  pub settled :
      (t k u : ℕ)
      → k ≤ u
      → (info t).version % 2 ≡ 0
      → (info t).version ≡ (info (t + u)).version
      → ((info (t + k)).sec ≡ (info t).sec) × ((info (t + k)).nsec ≡ (info t).nsec)
  pub sec_small : (t : ℕ) → (info t).sec < 2 ^ 32
  pub nsec_small : (t : ℕ) → (info t).nsec < 2 ^ 32

-- The time of the record at one instant, in nanoseconds.
unfoldable pub nano_at : (ℕ → WallClockInfo) → ℕ → ℕ
nano_at info t = (info t).sec * 1000000000 + (info t).nsec

-- The host leaves the record alone during the round that begins at `t`.
abbrev pub Quiet : (ℕ → WallClockInfo) → ℕ → Type 0
Quiet info t =
    ((info t).version % 2 ≡ 0)
    × ((info t).version ≡ (info (t + 3)).version)
    × ((info (t + 4)).version % 2 ≡ 0)

-- An update is on its way during the reads of the round, and is over when the test reads the version.
abbrev pub Torn : (ℕ → WallClockInfo) → ℕ → Type 0
Torn info t =
    ((info t).version % 2 ≡ 1)
    × ((info t).version ≡ (info (t + 3)).version)
    × ((info (t + 4)).version % 2 ≡ 0)

-- The result of a round that ends the loop.
abbrev pub Ends : (ℕ → WallClockInfo) → ℕ → Option ℕ → Type 0
Ends info t r =
    (Quiet info t × (r ≡ some (nano_at info t)))
    ⊎ (Torn info t × (r ≡ some ((info (t + 1)).sec * 1000000000 + (info (t + 2)).nsec)))

pub parity : (v : ℕ) → (v % 2 ≡ 0) ⊎ (v % 2 ≡ 1)
parity v = omega arith

round-cases :
    (info : ℕ → WallClockInfo) (t : ℕ)
    → KeepsVersion info
    → Ends info t (boot_clock_round info t)
      ⊎ ((Quiet info t → ⊥) × (boot_clock_round info t ≡ none))
unfolding boot_clock_round nano_at
round-cases info t keeps =
    elim (Bool-cases
      (((info (t + 4)).version % 2 == 1) || not ((info t).version == (info (t + 3)).version))) [
        | inl again ↦ inr ((λ q. ground (arith, q.0, q.1, q.2)), rw again refl)
        | inr done ↦
            let same : (info t).version ≡ (info (t + 3)).version = ground arith in
            let over : (info (t + 4)).version % 2 ≡ 0 = ground arith in
            elim (parity (info t).version) [
              | inl even ↦
                  let (sec, _) = keeps.settled t 1 3 (omega arith) even same in
                  let (_, nsec) = keeps.settled t 2 3 (omega arith) even same in
                  inl (
                    inl (
                      (even, same, over),
                      rw (done, sec, nsec)
                          (ap (λ (x : ℕ). some x)
                            (omega (arith, keeps.sec_small t, keeps.nsec_small t))),
                    ))
              | inr odd ↦ inl (
                  inr (
                    (odd, same, over),
                    rw done (
                        ap (λ (x : ℕ). some x)
                          (omega (arith, keeps.sec_small (t + 1), keeps.nsec_small (t + 2)))),
                  ))
            ]
      ]

-- `BootClock` gives a time if, in one of its rounds, the host leaves the record alone. It is the time that
-- the record had at one instant, unless the host's update has the same odd version at the
-- first two reads of the version in the round that ends the loop, and is over at the third one: then the
-- seconds and the nanoseconds may be parts of two times.
pub boot_clock-nano_at :
    (fuel : ℕ) (info : ℕ → WallClockInfo) (t : ℕ)
    → KeepsVersion info
    → (k : ℕ) → k < fuel
    → Quiet info (t + 5 * k)
    → (u : ℕ) × (t ≤ u) × (u ≤ t + 5 * k) × Ends info u (boot_clock fuel info t)
unfolding boot_clock
boot_clock-nano_at zero info t keeps k lt quiet = absurd (omega arith)
boot_clock-nano_at (suc fuel) info t keeps k lt quiet = elim (round-cases info t keeps) [
  | inl (inl (now, e)) ↦ (t, omega arith, omega arith, inl (now, rw (e, boot_clock) refl))
  | inl (inr (torn, e)) ↦ (t, omega arith, omega arith, inr (torn, rw (e, boot_clock) refl))
  | inr (busy, e) ↦
      let later : k ≢ 0 = λ z. busy (subst (Quiet info) (omega (arith, z)) quiet) in
      let z : t + 5 * k ≡ t + 5 + 5 * (k - 1) = omega (arith, later) in
      let (u, after, until, ends) =
        boot_clock-nano_at fuel info (t + 5) keeps (k - 1) (omega (arith, later))
          (subst (Quiet info) z quiet) in
      (u, omega arith, omega (arith, z), rw (e, boot_clock) ends)
]

shifted_left :
    (shift mul time : ℕ)
    → shift < 128
    → time * 2 ^ shift < 2 ^ 64
    → processor_nano shift mul time ≡ time * 2 ^ shift * mul / 2 ^ 32 % 2 ^ 64
unfolding processor_nano
shifted_left zero mul time left fits = let e : time * 2 ^ 0 ≡ time = omega arith in rw e refl
shifted_left (suc k) mul time left fits =
    let no_zero : (suc k == 0) ≡ false = ground arith in
    let positive : ltb (suc k) 128 ≡ true = ground arith in
    let e : time * 2 ^ suc k % 2 ^ 64 ≡ time * 2 ^ suc k = omega arith in
    rw (no_zero, positive, e) refl

-- Without an overflow of 64 bits on the way, `ProcessorNano` keeps the order of times, for a shift
-- to the left.
pub processor_nano_mono :
    (shift mul time later : ℕ)
    → shift < 128
    → time ≤ later
    → later * 2 ^ shift < 2 ^ 64
    → later * 2 ^ shift * mul < 2 ^ 96
    → processor_nano shift mul time ≤ processor_nano shift mul later
processor_nano_mono shift mul time later left le fits fits' =
    let a : time * 2 ^ shift ≤ later * 2 ^ shift = mul-le-mul le (omega arith) in
    let b : time * 2 ^ shift * mul ≤ later * 2 ^ shift * mul = mul-le-mul a (omega arith) in
    rw (shifted_left shift mul time left (omega arith), shifted_left shift mul later left fits)
      (omega arith)
