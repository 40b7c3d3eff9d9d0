-- ===== src/Pipeline/Energy/Measured.antt =====
-- What the meters return for a measurement.
use refactor_tradeoffs.Base.{ℕ, ◌+◌, ◌≡◌, refl, false, Option, none, some, List, [], ◌∷◌, arith}
use refactor_tradeoffs.Base.Int.{pos, +ℤ-pos, sub_ℕ-add}
use refactor_tradeoffs.Pipeline.Energy.Gpu
use refactor_tradeoffs.Pipeline.Energy.Gpu.{GpuEnergyMeter, consumed}
use refactor_tradeoffs.Pipeline.Energy.Cpu
use refactor_tradeoffs.Pipeline.Energy.Cpu.{CpuEnergyMeter, sum, accumulate}

-- The counters of the GPUs at the start and at the end, where each has consumed its share.
abbrev pub counters_before : List (ℕ × ℕ) → List ℕ
counters_before [] = []
counters_before ((counter, share) ∷ gpus) = counter ∷ counters_before gpus

abbrev pub counters_after : List (ℕ × ℕ) → List ℕ
counters_after [] = []
counters_after ((counter, share) ∷ gpus) = (counter + share) ∷ counters_after gpus

abbrev pub shares : List (ℕ × ℕ) → List ℕ
shares [] = []
shares ((counter, share) ∷ gpus) = share ∷ shares gpus

consumed-shares :
    (gpus : List (ℕ × ℕ))
    → consumed (counters_after gpus) (counters_before gpus) ≡ pos (sum (shares gpus))
unfolding consumed sum
consumed-shares [] = refl
consumed-shares ((counter, share) ∷ gpus) =
    rw (sub_ℕ-add share counter, consumed-shares gpus) (+ℤ-pos share (sum (shares gpus)))

-- Whatever the meter held before: stopping it returns the sum of what the GPUs have consumed since it
-- was started, and it is not running then.
pub gpu-stop-start :
    (gpus : List (ℕ × ℕ)) (m : GpuEnergyMeter)
    → let r = Gpu.stop (counters_after gpus) (Gpu.start (counters_before gpus) m) in
      (r.0 ≡ pos (sum (shares gpus))) × (r.1.running ≡ false)
unfolding Gpu.stop Gpu.start
gpu-stop-start gpus m = (consumed-shares gpus, refl)

-- The energy of an interval; nothing where RAPL has no value.
abbrev pub energy_of : Option (List ℕ) → ℕ
energy_of none = 0
energy_of (some pkg) = sum pkg

abbrev pub total_energy : List (Option (List ℕ)) → ℕ
total_energy [] = 0
total_energy (pkg ∷ pkgs) = energy_of pkg + total_energy pkgs

poll_loop-accumulated :
    (pkgs : List (Option (List ℕ))) (m : CpuEnergyMeter)
    → m.stop_event ≡ false
    → (Cpu.poll_loop pkgs m).accumulated ≡ m.accumulated + total_energy pkgs
unfolding Cpu.poll_loop Cpu.poll accumulate
poll_loop-accumulated [] m h = omega arith
poll_loop-accumulated (none ∷ pkgs) m h = ground (arith, poll_loop-accumulated pkgs m h)
poll_loop-accumulated (some pkg ∷ pkgs) m h =
    ground
      (arith, poll_loop-accumulated pkgs (record m { accumulated = m.accumulated + sum pkg }) h)

-- Whatever the meter held before, and however often the thread has polled: stopping it returns the
-- energy of all intervals since it was started, each counted once, and it is not running then.
cpu-stop-start :
    (pkgs : List (Option (List ℕ))) (last : Option (List ℕ)) (m : CpuEnergyMeter)
    → let r = Cpu.stop last (Cpu.poll_loop pkgs (Cpu.start m)) in
      (r.0 ≡ total_energy pkgs + energy_of last) × (r.1.running ≡ false)
unfolding Cpu.stop Cpu.start accumulate
cpu-stop-start pkgs none m = ground (arith, poll_loop-accumulated pkgs (Cpu.start m))
cpu-stop-start pkgs (some pkg) m = ground (arith, poll_loop-accumulated pkgs (Cpu.start m))
