-- ===== src/StopConditions.antt =====
-- internal/controlplane/stopconditions: the conditions that stop a run.
pub mod Numbers
pub mod Conditions
pub mod Evaluator
mod Examples
