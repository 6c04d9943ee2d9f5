-- ===== src/Machine/Errors.antt =====
-- smpli/src/err.rs, and the errors of the builtin modules.
use smpl_mirror.Common.{ℕ, String}
use smpl_mirror.Common.Int.{ℤ}
use smpl_mirror.ByteCode.{Instruction}

pub data ExpectedArgCount : Type 0 where
  range : ℕ → ℕ → ExpectedArgCount
  min max exact : ℕ → ExpectedArgCount

pub data RuntimeInstructionError : Type 0 where
  expected_int expected_float expected_bool expected_function :
      Instruction → RuntimeInstructionError
  no_return_value : ℕ → RuntimeInstructionError
  ip_underflow ip_overflow : ℕ → ℤ → RuntimeInstructionError

pub data IiReason : Type 0 where
  expected_int expected_float expected_bool : Instruction → IiReason

pub data InternalError : Type 0 where
  invalid_arg_count : ℕ → ExpectedArgCount → InternalError
  invalid_arg_type : ℕ → String → String → InternalError
  instruction_pointer_out_of_bounds : ℕ → ℕ → InternalError
  integer_out_of_range : ℤ → ℤ → ℤ → InternalError
  invalid_instruction : IiReason → InternalError
  runtime_instruction_error : RuntimeInstructionError → InternalError

-- smpli/src/builtins/vec.rs
pub data VecError : Type 0 where
  index_out_of_range : ℤ → ℕ → VecError

-- smpli/src/builtins/option.rs
pub data OptionError : Type 0 where
  non_option unwrap_failed : OptionError
  expect_failed : String → OptionError

-- `failure::Error`, which any of them becomes by `?`; `custom` is an error of a builtin that the
-- embedding program adds.
pub data Error : Type 0 where
  internal : InternalError → Error
  vec_error : VecError → Error
  option_error : OptionError → Error
  custom : String → Error
