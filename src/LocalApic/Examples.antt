-- ===== src/LocalApic/Examples.antt =====
-- `InitCpu` at a concrete controller.
use chestnut.Base.{◌≡◌, ◌≢◌, refl, inr, arith, some, ◌==◌, if◌then◌else◌}
use chestnut.LocalApic.{LocalApic, measure, init_cpu}
use chestnut.LocalApic.Timer.{IsRunning, init_cpu-IsRunning}

-- A controller whose bus frequency is not known yet.
abbrev fresh : LocalApic
fresh = record { registers = λ a. 0; bus_freq = 0 }

measured : (measure 4294000000 fresh).bus_freq ≢ 0
unfolding measure
measured e = omega (arith, e)

init_cpu-IsRunning_example :
    (s' : LocalApic) × (init_cpu 0 4294000000 fresh ≡ some s')
    × IsRunning s'
    × (s'.bus_freq
        ≡ (if fresh.bus_freq == 0 then (measure 4294000000 fresh).bus_freq else fresh.bus_freq))
init_cpu-IsRunning_example =
    init_cpu-IsRunning 0 4294000000 fresh (omega arith) (inr (refl, refl, measured))
