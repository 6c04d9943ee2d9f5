-- ===== src/ByteGen/Partial.antt =====
-- smpl/src/code_gen/byte_gen/first_pass.rs and second_pass.rs: the partial instructions of the
-- two passes, and the frames in which the first pass leaves loops and branches.
use smpl_mirror.Common.{ℕ, List, Option, none}
use smpl_mirror.ByteCode.{Arg, Instruction}

-- first_pass.rs
pub data PartialInstruction : Type 0 where
  instruction : Instruction → PartialInstruction
  loop_mark branch_mark continue break : ℕ → PartialInstruction

pub record LoopFrame : Type 0 where
  pub result_location : Option Arg
  pub condition : Option (List PartialInstruction)
  pub body : Option (List PartialInstruction)

abbrev pub new_loop_frame : LoopFrame
new_loop_frame = record { result_location = none; condition = none; body = none }

pub record BranchFrame : Type 0 where
  pub result_location : Option Arg
  pub condition : Option (List PartialInstruction)
  pub true_branch : Option (List PartialInstruction)
  pub false_branch : Option (List PartialInstruction)

abbrev pub new_branch_frame : BranchFrame
new_branch_frame = record {
  result_location = none;
  condition = none;
  true_branch = none;
  false_branch = none;
}

-- second_pass.rs
pub data Flat : Type 0 where
  instruction : Instruction → Flat
  loop_begin loop_end continue break : ℕ → Flat
