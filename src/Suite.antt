-- ===== src/Suite.antt =====
-- The execution of a test suite: app/elaborations/services/test_suites/test_suite_executor_thread.py
-- and what it calls, down to one command.
pub mod State
pub mod Runtime
pub mod Commands
pub mod Items
pub mod Rows
pub mod Run
pub mod Outcomes
pub mod Status
pub mod Order
pub mod Stops
pub mod Refusal
