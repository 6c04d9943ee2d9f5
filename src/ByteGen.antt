-- ===== src/ByteGen.antt =====
-- smpl/src/code_gen/byte_gen: the passes that turn a control flow graph into byte code.
pub mod ByteExpr
pub mod FirstPass
pub mod Partial
pub mod SecondPass
pub mod Meaning
pub mod Correct
pub mod ThirdPass
pub mod Compile
mod Tests
