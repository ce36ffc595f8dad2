-- ===== src/Context.antt =====
-- app/elaborations/services/suite_runs/run_context.py: the state of one run, and the paths by
-- which commands read and write it.
pub mod Path
pub mod State
pub mod Assign
pub mod Remove
pub mod Write
pub mod Vars
pub mod Sound
pub mod Payload
