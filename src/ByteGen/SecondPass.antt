-- ===== src/ByteGen/SecondPass.antt =====
-- smpl/src/code_gen/byte_gen/second_pass.rs: branches and loops are put in line, with relative
-- jumps. The recursion of `flatten` through the frames is bounded by fuel, for a map of frames
-- may hold itself; `ByteGen.SecondPass.Total` gives the fuel that frames which do not need.
-- Lengths are counts of a `Vec`, so that `as i64` keeps them.
pub mod Total
use smpl_mirror.Common.{
  ℕ, zero, suc, ◌+◌, List, [], ◌∷◌, ◌++◌, Option, Outcome, ok, err, ◌>>=◌, unwrapped, lookup_id,
}
use smpl_mirror.Common.Int.{pos, negsuc}
use smpl_mirror.ByteCode.{Arg, Instruction, RelJumpTarget, rel_jump_target}
use smpl_mirror.ByteGen.Partial.{PartialInstruction, LoopFrame, BranchFrame, Flat}

pub record SecondPass : Type 0 where
  pub main_body : List PartialInstruction
  pub loops : List (ℕ × LoopFrame)
  pub branches : List (ℕ × BranchFrame)

pub data OutOfFuel : Type 0 where
  out_of_fuel : OutOfFuel

-- `Flattened::len`: the markers are no instructions.
unfoldable pub flattened_len : List Flat → ℕ
flattened_len [] = 0
flattened_len (Flat.loop_begin id ∷ code) = flattened_len code
flattened_len (Flat.loop_end id ∷ code) = flattened_len code
flattened_len (Flat.instruction i ∷ code) = suc (flattened_len code)
flattened_len (Flat.continue id ∷ code) = suc (flattened_len code)
flattened_len (Flat.break id ∷ code) = suc (flattened_len code)

-- What is appended for a loop. The second jump is `-(body_len + condition_len) - 1`.
unfoldable pub loop_code : ℕ → Arg → List Flat → List Flat → List Flat
unfolding flattened_len
loop_code id result condition body =
    Flat.loop_begin id
    ∷ (condition
        ++ Flat.instruction (
            Instruction.rel_jump_negate_condition (rel_jump_target (pos (flattened_len body + 2)))
              result)
          ∷ (body
              ++ Flat.instruction (
                  Instruction.rel_jump
                    (rel_jump_target (negsuc (flattened_len body + flattened_len condition))))
                ∷ Flat.loop_end id
                ∷ []))

-- What is appended for a branch: the false branch comes first.
unfoldable pub branch_code : Arg → List Flat → List Flat → List Flat → List Flat
unfolding flattened_len
branch_code result condition true_branch false_branch =
    condition
    ++ Flat.instruction (
        Instruction.rel_jump_condition (rel_jump_target (pos (flattened_len false_branch + 2)))
          result)
      ∷ (false_branch
          ++ Flat.instruction
              (Instruction.rel_jump (rel_jump_target (pos (flattened_len true_branch + 1))))
            ∷ true_branch)

unfoldable pub flatten : ℕ → SecondPass → List PartialInstruction → Outcome OutOfFuel (List Flat)
unfolding loop_code branch_code
flatten fuel sp [] = ok []
flatten fuel sp (PartialInstruction.instruction i ∷ rest) = do
  code ← flatten fuel sp rest
  ok (Flat.instruction i ∷ code)
flatten fuel sp (PartialInstruction.continue id ∷ rest) = do
  code ← flatten fuel sp rest
  ok (Flat.continue id ∷ code)
flatten fuel sp (PartialInstruction.break id ∷ rest) = do
  code ← flatten fuel sp rest
  ok (Flat.break id ∷ code)
flatten zero sp (PartialInstruction.loop_mark id ∷ rest) = err out_of_fuel
flatten (suc fuel) sp (PartialInstruction.loop_mark id ∷ rest) = do
  frame ← unwrapped (lookup_id id sp.loops)
  result ← unwrapped frame.result_location
  condition ← unwrapped frame.condition
  condition' ← flatten fuel sp condition
  body ← unwrapped frame.body
  body' ← flatten fuel sp body
  code ← flatten (suc fuel) sp rest
  ok (loop_code id result condition' body' ++ code)
flatten zero sp (PartialInstruction.branch_mark id ∷ rest) = err out_of_fuel
flatten (suc fuel) sp (PartialInstruction.branch_mark id ∷ rest) = do
  frame ← unwrapped (lookup_id id sp.branches)
  condition ← unwrapped frame.condition
  result ← unwrapped frame.result_location
  true_branch ← unwrapped frame.true_branch
  false_branch ← unwrapped frame.false_branch
  condition' ← flatten fuel sp condition
  true_branch' ← flatten fuel sp true_branch
  false_branch' ← flatten fuel sp false_branch
  code ← flatten (suc fuel) sp rest
  ok (branch_code result condition' true_branch' false_branch' ++ code)

unfoldable pub pass : ℕ → SecondPass → Outcome OutOfFuel (List Flat)
unfolding flatten
pass fuel sp = flatten fuel sp sp.main_body
