-- ===== src/Machine.antt =====
-- smpli/src: the virtual machine.
pub mod Value
pub mod Env
pub mod Place
pub mod Errors
pub mod Arith
pub mod Instr
pub mod Executor
pub mod Sample
mod Tests
