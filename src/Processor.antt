-- ===== src/Processor.antt =====
-- kern/cpu.h, kern/cpu.cc: model specific registers, the time stamp counter and the interrupt flag, and
-- who sets these registers (kern/apic.cc, kern/kvm-clock.cc). An instruction of the processor is
-- what it leaves in its registers.
pub mod ApicBase
mod Examples
use Prim.Native.Nat.{bit_and, bit_or}
use chestnut.Base.{
  ℕ, ◌+◌, ◌-◌, ◌*◌, ◌/◌, ◌%◌, ◌^◌, Bool, Option, none, some, ltb, ◌==◌, if◌then◌else◌, store,
}
use chestnut.Bytes.{Memory, memcpy}
use chestnut.Clock.Sample.{CpuTimeInfo}

-- `CpuMSRValue`, and its constructor from 64 bits.
pub record MsrValue : Type 0 where
  pub lo : ℕ
  pub hi : ℕ

unfoldable pub msr_value : ℕ → MsrValue
msr_value val = record { lo = val % 2 ^ 32; hi = val / 2 ^ 32 % 2 ^ 32 }

-- `ReadTimeStamp`, of the two halves that `rdtsc` gives.
unfoldable pub read_time_stamp : ℕ → ℕ → ℕ
read_time_stamp lo hi = bit_or (hi * 2 ^ 32 % 2 ^ 64) lo

-- `SetMSR`: the registers by their number.
unfoldable pub set_msr : ℕ → MsrValue → (ℕ → MsrValue) → ℕ → MsrValue
set_msr msr value msrs = store msrs msr value

-- `IsInterruptsEnabled`.
unfoldable pub is_interrupts_enabled : ℕ → Bool
is_interrupts_enabled eflags = 1 == bit_and eflags 512

-- `kApicBaseMSR`, and the mask of both functions.
abbrev pub apic_base_msr : ℕ
apic_base_msr = 27

abbrev pub apic_base_mask : ℕ
apic_base_mask = 4294963456

abbrev pub apic_base_enable : ℕ
apic_base_enable = 2048

-- The value that `CpuSetAPICBase` puts in the register.
unfoldable pub apic_base_value : ℕ → MsrValue
apic_base_value apic = record {
  lo = bit_or (bit_and apic apic_base_mask) apic_base_enable;
  hi = bit_and (apic / 2 ^ 32 % 2 ^ 32) 15;
}

unfoldable pub set_apic_base : ℕ → (ℕ → MsrValue) → ℕ → MsrValue
set_apic_base apic msrs = set_msr apic_base_msr (apic_base_value apic) msrs

-- `CpuGetAPICBase`, of the value in the register.
unfoldable pub get_apic_base : MsrValue → ℕ
get_apic_base value = bit_or (bit_and value.lo apic_base_mask) (bit_and value.hi 15 * 2 ^ 32)

-- The step of `InitCpu`: `CpuSetAPICBase(CpuGetAPICBase())`.
unfoldable pub renew_apic_base : (ℕ → MsrValue) → ℕ → MsrValue
renew_apic_base msrs = set_apic_base (get_apic_base (msrs apic_base_msr)) msrs

-- The constructors of the clocks, with the physical address of their record.
unfoldable pub new_wall_clock : ℕ → (ℕ → MsrValue) → ℕ → MsrValue
new_wall_clock info msrs = set_msr 1263947008 (msr_value info) msrs

unfoldable pub new_system_time : ℕ → (ℕ → MsrValue) → CpuTimeInfo × (ℕ → MsrValue)
new_system_time time_info msrs = (
  record {
    version = 0;
    tsc_ts = 0;
    sys_time = 0;
    tsc_to_sys_mul = 2152659718;
    tsc_shift = 255;
    flags = 1;
  },
  set_msr 1263947009 (msr_value (bit_or time_info 1)) msrs,
)

-- `SetupSMPBootCode`, where the linker gives the ends of the code; the load address is 0x8000 as the
-- kernel sees it.
unfoldable pub setup_smp_boot_code : ℕ → ℕ → ℕ → Memory → Option Memory
setup_smp_boot_code kern_offset smp_start smp_boot_code_end m =
    if ltb smp_start smp_boot_code_end
    then (if smp_start == 0
        then none
        else some (
            memcpy ((32768 + kern_offset) % 2 ^ 64) smp_start
              ((smp_boot_code_end - smp_start) % 2 ^ 16) m))
    else none
