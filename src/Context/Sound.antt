-- ===== src/Context/Sound.antt =====
-- The scopes of a bound context: dicts at its creation, and restored after an item.
pub mod Vars
pub mod Binding
