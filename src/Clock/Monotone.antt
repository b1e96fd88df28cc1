-- ===== src/Clock/Monotone.antt =====
-- The second loop of `BootTime`, with its compare and swap: between the calls that go through it, time
-- does not go back.
use chestnut.Base.{ℕ, ◌≤◌, ◌<◌, inl, inr, arith, Bool-cases, leb, ◌==◌, List, [], ◌∷◌}
use chestnut.Clock.{Caller, stable, ready, loaded, returned, Clock, advance, step, run}

-- What a caller knows is not below a time `r`.
abbrev pub NotBelow : ℕ → Caller → Type 0
NotBelow r (stable time) = Unit {0}
NotBelow r (ready time) = Unit {0}
NotBelow r (loaded time last) = (r ≤ last) × (last < time)
NotBelow r (returned time) = r ≤ time

-- Every caller loads a time that is over by then, and swaps in a later one. What a caller returns at once,
-- by the stable counter, is not compared with the others.
abbrev pub Sound : ℕ → Caller → Type 0
Sound current (stable time) = Unit {0}
Sound current (ready time) = Unit {0}
Sound current (loaded time last) = (last ≤ current) × (last < time)
Sound current (returned time) = time ≤ current

abbrev pub IsValid : Clock → Type 0
IsValid c = (i : ℕ) → Sound c.last_boot_time (c.callers i)

Sound-le :
    (caller : Caller) (current later : ℕ)
    → current ≤ later
    → Sound current caller
    → Sound later caller
Sound-le (stable time) current later le s = tt
Sound-le (ready time) current later le s = tt
Sound-le (loaded time last) current later le s = (omega (arith, s.0), s.1)
Sound-le (returned time) current later le s = omega arith

advance-Sound :
    (caller : Caller) (current : ℕ)
    → Sound current caller
    → (current ≤ (advance caller current).1)
      × Sound (advance caller current).1 (advance caller current).0
unfolding advance
advance-Sound (stable time) current s = (omega arith, tt)
advance-Sound (ready time) current s = elim (Bool-cases (leb time current)) [
  | inl old ↦ rw old (omega arith, omega arith)
  | inr new ↦ rw new (omega arith, (omega arith, ground arith))
]
advance-Sound (loaded time last) current s = elim (Bool-cases (current == last)) [
  | inl same ↦ rw same (ground (arith, s.1), omega arith)
  | inr changed ↦ rw changed (omega arith, tt)
]
advance-Sound (returned time) current s = (omega arith, s)

step-IsValid :
    (i : ℕ) (c : Clock)
    → IsValid c
    → (c.last_boot_time ≤ (step i c).last_boot_time) × IsValid (step i c)
unfolding step
step-IsValid i c v =
    let a = advance-Sound (c.callers i) c.last_boot_time (v i) in
    (
      a.0,
      λ j. elim (Bool-cases (i == j)) [
        | inl same ↦ rw same a.1
        | inr other ↦ rw other (
            Sound-le (c.callers j) c.last_boot_time (advance (c.callers i) c.last_boot_time).1 a.0
              (v j))
      ],
    )

-- In every run, whatever the order of the steps: `last_boot_time` does not decrease and stays at or
-- above every time that the second loop has returned.
pub run-IsValid :
    (turns : List ℕ) (c : Clock)
    → IsValid c
    → (c.last_boot_time ≤ (run turns c).last_boot_time) × IsValid (run turns c)
unfolding run
run-IsValid [] c v = (omega arith, v)
run-IsValid (i ∷ turns) c v =
    let s = step-IsValid i c v in
    let t = run-IsValid turns (step i c) s.1 in (omega (arith, s.0, t.0), t.1)
