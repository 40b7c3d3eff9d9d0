-- ===== src/Pipeline/Energy.antt =====
-- src/pipeline/measuring_energy: the meters of the GPUs and of the CPU.
pub mod Gpu
pub mod Cpu
pub mod Measured
pub mod CpuUtil
