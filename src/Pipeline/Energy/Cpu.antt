-- ===== src/Pipeline/Energy/Cpu.antt =====
-- src/pipeline/measuring_energy/cpu_rapl/cpu_energy_meter.py. RAPL counts whole microjoules; the
-- model keeps this unit, where the code multiplies to joules in floats.
use refactor_tradeoffs.Base.{
  ℕ, ◌+◌, Bool, true, false, Option, none, some, List, [], ◌∷◌, if◌then◌else◌,
}

pub record CpuEnergyMeter : Type 0 where
  pub accumulated : ℕ
  pub running : Bool
  pub stop_event : Bool

abbrev pub new_cpu_meter : CpuEnergyMeter
new_cpu_meter = record { accumulated = 0; running = false; stop_event = false }

unfoldable pub sum : List ℕ → ℕ
sum [] = 0
sum (x ∷ xs) = x + sum xs

-- `pkg` is what RAPL reports of each package for the interval that `end()` closes, or `None`.
unfoldable pub accumulate : Option (List ℕ) → CpuEnergyMeter → CpuEnergyMeter
unfolding sum
accumulate none m = m
accumulate (some pkg) m = record m { accumulated = m.accumulated + sum pkg }

unfoldable pub start : CpuEnergyMeter → CpuEnergyMeter
start m = record { accumulated = 0; running = true; stop_event = false }

-- One wait of the polling thread that ends: by the interval, or by the event.
unfoldable pub poll : Option (List ℕ) → CpuEnergyMeter → CpuEnergyMeter
unfolding accumulate
poll pkg m = if m.stop_event then m else accumulate pkg m

unfoldable pub poll_loop : List (Option (List ℕ)) → CpuEnergyMeter → CpuEnergyMeter
unfolding poll
poll_loop [] m = m
poll_loop (pkg ∷ pkgs) m = poll_loop pkgs (poll pkg m)

unfoldable pub stop : Option (List ℕ) → CpuEnergyMeter → ℕ × CpuEnergyMeter
unfolding accumulate
stop pkg m =
    let stopped = accumulate pkg (record m { stop_event = true; running = false }) in
    (stopped.accumulated, stopped)
