-- ===== src/LocalApic/Timer.antt =====
-- How the timer runs behind `InitCpu`.
use chestnut.Base.{
  ℕ, ◌+◌, ◌/◌, ◌%◌, ◌^◌, ◌≤◌, ◌<◌, ◌≡◌, ◌≢◌, refl, inl, inr, arith, true, false, Bool-cases, none,
  some, ◌⊎◌, if◌then◌else◌, ltb, ◌==◌, ==_ne,
}
use chestnut.LocalApic.{
  LocalApic, timer, timer_initial_count, timer_divide_config, lint0, lint1, eoi, task_priority,
  address, write, set_masks, measure, calibrate, init_count, start_timer, finish_init, init_cpu,
}

-- The timer runs, periodically and with vector 32; the two pins are masked.
pub record IsRunning (s : LocalApic) : Type 0 where
  pub periodic : s.registers (address timer) ≡ 131072 + 32
  pub divide : s.registers (address timer_divide_config) ≡ 3
  pub count : s.registers (address timer_initial_count) ≡ init_count s.bus_freq
  pub enough : 4096 ≤ init_count s.bus_freq
  pub pins : (s.registers (address lint0) ≡ 2 ^ 16) × (s.registers (address lint1) ≡ 2 ^ 16)
  pub priority : s.registers (address task_priority) ≡ 0
  pub acknowledged : s.registers (address eoi) ≡ 0

init_count-bounds :
    (f : ℕ) → f < 2 ^ 32 → (4096 ≤ init_count f) × (init_count f % 2 ^ 32 ≡ init_count f)
unfolding init_count
init_count-bounds f lt = elim (Bool-cases (ltb (f / 32 / 16) 4096)) [
  | inl few ↦ rw few (omega arith, refl)
  | inr many ↦ rw many (ground arith, omega arith)
]

-- A controller whose pins are masked before the timer starts.
start_timer-IsRunning :
    (s : LocalApic)
    → s.bus_freq < 2 ^ 32
    → s.registers (address lint0) ≡ 2 ^ 16
    → s.registers (address lint1) ≡ 2 ^ 16
    → s.registers (address task_priority) ≡ 0
    → IsRunning (start_timer s)
unfolding start_timer write
start_timer-IsRunning s lt first second low =
    let (enough, whole) = init_count-bounds s.bus_freq lt in
    record {
      periodic = refl;
      divide = refl;
      count = whole;
      enough = enough;
      pins = (first, second);
      priority = low;
      acknowledged = refl;
    }

start_timer-freq : (s : LocalApic) → (start_timer s).bus_freq ≡ s.bus_freq
unfolding start_timer write
start_timer-freq s = refl

-- `InitCpu` leaves the timer running, periodically and with vector 32, with at least the minimal
-- count and with both pins masked: on any processor if the bus frequency is known already, which it
-- keeps, and on processor 0 if it is not, where the frequency is then the measured one, provided
-- that this is not 0.
pub init_cpu-IsRunning :
    (cpu_id curr_count : ℕ) (s : LocalApic)
    → s.bus_freq < 2 ^ 32
    → (s.bus_freq ≢ 0) ⊎ ((s.bus_freq ≡ 0) × (cpu_id ≡ 0) × ((measure curr_count s).bus_freq ≢ 0))
    → (s' : LocalApic) × (init_cpu cpu_id curr_count s ≡ some s')
      × IsRunning s'
      × (s'.bus_freq ≡ (if s.bus_freq == 0 then (measure curr_count s).bus_freq else s.bus_freq))
unfolding init_cpu finish_init calibrate set_masks measure write
init_cpu-IsRunning cpu_id curr_count s lt ways = elim ways [
  | inl known ↦
      let e : (s.bus_freq == 0) ≡ false = ground arith in
      (
        start_timer (set_masks s),
        rw (e, e) refl,
        start_timer-IsRunning (set_masks s) lt refl refl refl,
        rw e (start_timer-freq (set_masks s)),
      )
  | inr (unknown, first, measured) ↦
      let e : (s.bus_freq == 0) ≡ true = ground arith in
      let e' : ((measure curr_count (set_masks s)).bus_freq == 0) ≡ false = ==_ne _ 0 measured in
      let here : (cpu_id == 0) ≡ true = ground arith in
      (
        start_timer (measure curr_count (set_masks s)),
        rw (e, here, e') refl,
        start_timer-IsRunning (measure curr_count (set_masks s)) (omega arith) refl refl refl,
        rw e (start_timer-freq (measure curr_count (set_masks s))),
      )
]

-- A processor that is not the first one halts while the frequency is not known.
init_cpu-halts :
    (cpu_id curr_count : ℕ) (s : LocalApic)
    → s.bus_freq ≡ 0
    → cpu_id ≢ 0
    → init_cpu cpu_id curr_count s ≡ none
unfolding init_cpu finish_init calibrate set_masks write
init_cpu-halts cpu_id curr_count s unknown other =
    let e : (s.bus_freq == 0) ≡ true = ground arith in
    let e' : (cpu_id == 0) ≡ false = ground arith in rw (e, e') refl
