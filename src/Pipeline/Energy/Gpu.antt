-- ===== src/Pipeline/Energy/Gpu.antt =====
-- src/pipeline/measuring_energy/nvidia_gpu/gpu_energy_meter.py. NVML counts whole millijoules; the
-- model keeps this unit, where the code divides to joules in floats.
use refactor_tradeoffs.Base.{ℕ, Bool, true, false, List, [], ◌∷◌}
use refactor_tradeoffs.Base.Int.{ℤ, pos, sub_ℕ, ◌+ℤ◌}

pub record GpuEnergyMeter : Type 0 where
  pub before : List ℕ
  pub running : Bool

abbrev pub new_gpu_meter : GpuEnergyMeter
new_gpu_meter = record { before = []; running = false }

-- The sum of `after_i - before_i` over `zip(after, before)`.
unfoldable pub consumed : List ℕ → List ℕ → ℤ
unfolding ◌+ℤ◌
consumed [] before = pos 0
consumed (a ∷ after) [] = pos 0
consumed (a ∷ after) (b ∷ before) = sub_ℕ a b +ℤ consumed after before

-- `readings` is what NVML reports of each GPU at the call.
unfoldable pub start : List ℕ → GpuEnergyMeter → GpuEnergyMeter
start readings m = record { before = readings; running = true }

unfoldable pub stop : List ℕ → GpuEnergyMeter → ℤ × GpuEnergyMeter
unfolding consumed
stop readings m = (consumed readings m.before, record m { running = false })
