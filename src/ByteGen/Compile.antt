-- ===== src/ByteGen/Compile.antt =====
-- smpl/src/code_gen/byte_gen/mod.rs: `ByteCodeFunction`, and `compile_to_byte_code` from what the
-- first pass has gathered on.
use smpl_mirror.Common.{ℕ, List, Bool, true, false, Outcome, ok, ◌>>=◌, unwrapped}
use smpl_mirror.ByteCode.{Instruction}
use smpl_mirror.ByteGen.SecondPass.{SecondPass, OutOfFuel}
use smpl_mirror.ByteGen.SecondPass
use smpl_mirror.ByteGen.ThirdPass

pub record ByteCodeFunction : Type 0 where
  pub instructions : List Instruction
  pub validated_flag : Bool

abbrev pub new_not_validated : List Instruction → ByteCodeFunction
new_not_validated is = record { instructions = is; validated_flag = false }

abbrev pub new_pre_validated : List Instruction → ByteCodeFunction
new_pre_validated is = record { instructions = is; validated_flag = true }

abbrev pub validate : ByteCodeFunction → ByteCodeFunction
validate f = record f { validated_flag = true }

unfoldable pub compile_passes : ℕ → SecondPass → Outcome OutOfFuel ByteCodeFunction
unfolding SecondPass.pass ThirdPass.pass
compile_passes fuel sp = do
  flat ← SecondPass.pass fuel sp
  is ← unwrapped (ThirdPass.pass flat)
  ok (new_pre_validated is)
