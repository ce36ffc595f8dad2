-- ===== src/Constants.antt =====
-- app/elaborations/services/constants/command_constant_definition_registry.py: the constants that
-- the commands of a section define and refer to, checked before any of them runs.
pub mod Tables
pub mod Plan
pub mod Live
pub mod Suites
pub mod Mocks
