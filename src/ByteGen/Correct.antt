-- ===== src/ByteGen/Correct.antt =====
-- The byte code of the second and third pass does what the tree of the first pass means.
pub mod Layout
pub mod Steps
pub mod Parts
pub mod Jumping
pub mod Runs
pub mod Whole
pub mod Program
pub mod Execute
pub mod Total
