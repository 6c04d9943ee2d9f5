-- ===== src/ByteCode.antt =====
-- smpl/src/code_gen/byte_gen/byte_code.rs: the instructions, their arguments and locations.
-- An `i64` is a ℤ, a `u64` a ℕ, an `f64` its bit pattern; a `HashMap` is an association list.
use smpl_mirror.Common.{ℕ, String, List, Option, Bool}
use smpl_mirror.Common.Int.{ℤ}

pub data FieldAccess : Type 0 where
  field : String → FieldAccess
  field_index : String → String → FieldAccess

pub data Location : Type 0 where
  compound : String → Option String → List FieldAccess → Location
  namespace : String → Location
  tmp : String → Location

pub data Arg : Type 0 where
  location : Location → Arg
  int : ℤ → Arg
  float : ℕ → Arg
  bool : Bool → Arg
  string : String → Arg

pub data JumpTarget : Type 0 where
  jump_target : ℕ → JumpTarget

abbrev pub absolute_target : JumpTarget → ℕ
absolute_target (jump_target t) = t

pub data RelJumpTarget : Type 0 where
  rel_jump_target : ℤ → RelJumpTarget

abbrev pub relative_target : RelJumpTarget → ℤ
relative_target (rel_jump_target t) = t

pub data Instruction : Type 0 where
  store : Location → Arg → Instruction
  store_structure : Location → List (String × Arg) → Instruction
  store_array1 : Location → List Arg → Instruction
  store_array2 : Location → Arg → ℕ → Instruction
  add_i sub_i mul_i div_i mod_i : Location → Arg → Arg → Instruction
  add_f sub_f mul_f div_f mod_f : Location → Arg → Arg → Instruction
  and or : Location → Arg → Arg → Instruction
  g_eq_i l_eq_i ge_i le_i : Location → Arg → Arg → Instruction
  g_eq_f l_eq_f ge_f le_f : Location → Arg → Arg → Instruction
  eq in_eq : Location → Arg → Arg → Instruction
  negate invert : Location → Arg → Instruction
  fn_call : Location → List Arg → Instruction
  return : Option Arg → Instruction
  take_return : Location → Instruction
  jump : JumpTarget → Instruction
  jump_condition jump_negate_condition : JumpTarget → Arg → Instruction
  rel_jump : RelJumpTarget → Instruction
  rel_jump_condition rel_jump_negate_condition : RelJumpTarget → Arg → Instruction
