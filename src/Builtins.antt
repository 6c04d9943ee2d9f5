-- ===== src/Builtins.antt =====
-- smpli/src/builtins: modules of builtin functions.
pub mod Args
pub mod OptionValue
pub mod Vec
mod Tests
