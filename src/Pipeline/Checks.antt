-- ===== src/Pipeline/Checks.antt =====
-- src/pipeline/code_checks, and the two places that use the checks: the profile of
-- src/pipeline/repository_registry/repositories/engineblock.py and the agent's tools.
pub mod Engineblock
pub mod Php
pub mod EbProfile
pub mod Tools
