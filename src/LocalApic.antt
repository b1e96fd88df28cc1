-- ===== src/LocalApic.antt =====
-- The local interrupt controller of a processor: its registers (kern/apic.h) and
-- `LocalApic::InitCpu` (kern/apic.cc).
pub mod Timer
mod Examples
use Prim.Native.Nat.{bit_or}
use chestnut.Base.{
  ℕ, ◌+◌, ◌-◌, ◌*◌, ◌/◌, ◌%◌, ◌^◌, Option, none, some, List, [], ◌∷◌, ltb, ◌==◌, if◌then◌else◌,
  store,
}

-- The registers, in the order of the source.
pub data Register : Type 0 where
  id : Register
  version : Register
  task_priority : Register
  arbitration_priority : Register
  processor_priority : Register
  eoi : Register
  rrd : Register
  logical_destination : Register
  destination_format : Register
  spurious_interrupt_vector : Register
  isr : Register
  tmr : Register
  irr : Register
  error_status : Register
  interrupt_command_lo : Register
  interrupt_command_hi : Register
  timer : Register
  thermal : Register
  perf : Register
  lint0 : Register
  lint1 : Register
  error : Register
  timer_initial_count : Register
  timer_current_count : Register
  timer_divide_config : Register

-- Their addresses behind the base of the controller.
abbrev pub address : Register → ℕ
address id = 32
address version = 48
address task_priority = 128
address arbitration_priority = 144
address processor_priority = 160
address eoi = 176
address rrd = 192
address logical_destination = 208
address destination_format = 224
address spurious_interrupt_vector = 240
address isr = 256
address tmr = 384
address irr = 512
address error_status = 640
address interrupt_command_lo = 768
address interrupt_command_hi = 784
address timer = 800
address thermal = 816
address perf = 832
address lint0 = 848
address lint1 = 864
address error = 880
address timer_initial_count = 896
address timer_current_count = 912
address timer_divide_config = 992

-- `registers` gives what was written last at each address.
pub record LocalApic : Type 0 where
  pub registers : ℕ → ℕ
  pub bus_freq : ℕ

-- The constructor of a controller with these registers.
unfoldable pub new_local_apic : (ℕ → ℕ) → LocalApic
new_local_apic registers = record { registers = registers; bus_freq = 0 }

-- `LocalApicRegisterAccessor::Read`, of a register that keeps its value.
unfoldable pub read_word : Register → LocalApic → ℕ
read_word reg s = s.registers (address reg)

-- `Id`.
unfoldable pub own_id : LocalApic → ℕ
own_id s = read_word id s

-- `LocalApicRegisterAccessor::Write`.
unfoldable pub write : Register → ℕ → LocalApic → LocalApic
write reg value s = record s { registers = store s.registers (address reg) (value % 2 ^ 32) }

-- `EOI`.
unfoldable pub end_of_interrupt : LocalApic → LocalApic
end_of_interrupt s = write eoi 0 s

-- The writes up to the spurious interrupt vector.
unfoldable pub set_masks : LocalApic → LocalApic
set_masks s =
    let s = write task_priority 0 s in
    let s = write lint0 (2 ^ 16) s in
    let s = write lint1 (2 ^ 16) s in
    let s = write timer (2 ^ 16) s in
    let s = write perf (4 * 2 ^ 8) s in
    let s = write destination_format (2 ^ 32 - 1) s in
    let s = write logical_destination 1 s in write spurious_interrupt_vector (bit_or 256 255) s

-- The measurement, where `curr_count` is what the timer has counted down to when 1/100 of a second is
-- over.
unfoldable pub measure : ℕ → LocalApic → LocalApic
measure curr_count s =
    let s = write timer 32 s in
    let s = write timer_divide_config 3 s in
    let s = write timer_initial_count (2 ^ 32 - 1) s in
    let s = write timer (2 ^ 16) s in
    record s { bus_freq = (2 ^ 32 - 1 - curr_count + 1) % 2 ^ 32 * 16 * 100 % 2 ^ 32 }

-- The calibration on the processor `cpu_id`; `none` is the failed `kassert` on any but processor 0.
unfoldable pub calibrate : ℕ → ℕ → LocalApic → Option LocalApic
calibrate cpu_id curr_count s = if cpu_id == 0 then some (measure curr_count s) else none

-- The count for 32 interrupts in a second, and not less than the minimum.
unfoldable pub init_count : ℕ → ℕ
init_count bus_freq = if ltb (bus_freq / 32 / 16) 4096 then 4096 else bus_freq / 32 / 16

-- The rest, from the check of `bus_freq` on.
unfoldable pub start_timer : LocalApic → LocalApic
start_timer s =
    let s = write timer_initial_count (init_count s.bus_freq) s in
    let s = write timer (bit_or 32 131072) s in
    let s = write timer_divide_config 3 s in write eoi 0 s

-- The end of `InitCpu`; `none` is a `kassert` that has failed, or that fails here.
unfoldable pub finish_init : Option LocalApic → Option LocalApic
finish_init none = none
finish_init (some s) = if s.bus_freq == 0 then none else some (start_timer s)

-- `InitCpu` on the processor `cpu_id`, behind the mapping of the controller's page and the setting of
-- its base.
unfoldable pub init_cpu : ℕ → ℕ → LocalApic → Option LocalApic
init_cpu cpu_id curr_count s =
    let s = set_masks s in
    finish_init (if s.bus_freq == 0 then calibrate cpu_id curr_count s else some s)
