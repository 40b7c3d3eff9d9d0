-- ===== src/RepositoryAnalysis.antt =====
-- src/repository_analysis: the trace of the workload, and the reports of the static analysis.
pub mod Xdebug
pub mod OutputParser
