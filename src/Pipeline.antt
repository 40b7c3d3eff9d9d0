-- ===== src/Pipeline.antt =====
-- src/pipeline: the modules that refactor a repository.
pub mod State
pub mod Registry
pub mod WorkerContext
pub mod TreeParser
pub mod Utils
pub mod VllmClient
pub mod OpenHands
pub mod Refactor
pub mod Units
pub mod Checks
pub mod VllmServer
pub mod Energy
pub mod Run
