-- ===== src/Examples.antt =====
-- The definitions and the theorems at concrete data.
mod Data
mod Runs
mod Contexts
mod References
mod Policies
mod Mocks
mod Payloads
mod Streams
mod Constants
mod Suites
mod Perimeters
mod Rebuilds
mod Schedules
mod Arrays
