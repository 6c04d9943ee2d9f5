-- ===== src/ByteGen/Correct/Jumping.antt =====
-- The jumps of flattened loops and branches as moves of a frame.
use mathlib.Core.Path.{subst}
use smpl_mirror.Common.{ℕ, suc, ◌+◌, ◌-◌, ◌<◌, ◌^◌, ◌≡◌, List, true, false, arith, length}
use smpl_mirror.ByteCode.{Arg}
use smpl_mirror.Machine.Arith.{Target}
use smpl_mirror.Machine.Executor.{ByteCodeStack}
use smpl_mirror.ByteGen.Partial.{PartialInstruction}
use smpl_mirror.ByteGen.SecondPass.{SecondPass, flattened_len}
use smpl_mirror.ByteGen.Meaning.{State, CallRelation, Moves, Tests, at}
use smpl_mirror.ByteGen.Correct.Parts.{LoopParts, BranchParts}
use smpl_mirror.ByteGen.Correct.Steps.{
  frame_step-jump, frame_step-jump_back, frame_step-taken, frame_step-not_taken, frame_step-skip,
  frame_step-enter,
}

module _ (t : Target) (Returns : CallRelation) (fr : ByteCodeStack)
    (small : length fr.current_fn < 2 ^ 63) {sp : SecondPass} {fuel base stop : ℕ} {result : Arg}
    {condition rest : List PartialInstruction} (s : State) where
  module _ {body : List PartialInstruction}
      (l : LoopParts fr.current_fn sp fuel base stop result condition body rest) where
    abbrev LoopMove : ℕ → ℕ → Type 0
    LoopMove from to = Moves t Returns (at fr from s) s.1 (at fr to s) s.1

    pub loop-skips :
        Tests s result false
        → LoopMove (base + flattened_len l.c) (base + flattened_len l.c + (flattened_len l.b + 2))
    loop-skips y =
        Moves.local
          (frame_step-skip t fr small (base + flattened_len l.c) (flattened_len l.b + 2) result s
            l.skip y (omega (arith, l.fits)))
          tt Moves.here

    pub loop-enters :
        Tests s result true → LoopMove (base + flattened_len l.c) (suc (base + flattened_len l.c))
    loop-enters y =
        Moves.local
          (frame_step-enter t fr small (base + flattened_len l.c) (flattened_len l.b + 2) result s
            l.skip y)
          tt Moves.here

    pub loop-goes_back : LoopMove (suc (base + flattened_len l.c) + flattened_len l.b) base
    loop-goes_back =
        let again : suc (base + flattened_len l.c)
              + flattened_len l.b
              - suc (flattened_len l.b + flattened_len l.c)
            ≡ base =
          omega arith in
        subst (LoopMove (suc (base + flattened_len l.c) + flattened_len l.b)) again (
          Moves.local
            (frame_step-jump_back t fr small (suc (base + flattened_len l.c) + flattened_len l.b)
              (flattened_len l.b + flattened_len l.c) s l.back (omega arith))
            tt Moves.here)

  module _ {true_branch false_branch : List PartialInstruction}
      (l : BranchParts fr.current_fn sp fuel base stop result condition true_branch false_branch
        rest) where
    abbrev BranchMove : ℕ → ℕ → Type 0
    BranchMove from to = Moves t Returns (at fr from s) s.1 (at fr to s) s.1

    pub branch-takes :
        Tests s result true
        → BranchMove (base + flattened_len l.c) (base + flattened_len l.c + (flattened_len l.f + 2))
    branch-takes y =
        Moves.local
          (frame_step-taken t fr small (base + flattened_len l.c) (flattened_len l.f + 2) result s
            l.choose y (omega (arith, l.fits)))
          tt Moves.here

    pub branch-falls :
        Tests s result false
        → BranchMove (base + flattened_len l.c) (suc (base + flattened_len l.c))
    branch-falls y =
        Moves.local
          (frame_step-not_taken t fr small (base + flattened_len l.c) (flattened_len l.f + 2) result
            s l.choose y)
          tt Moves.here

    pub branch-jumps_over :
        BranchMove
          (suc (base + flattened_len l.c) + flattened_len l.f)
          (base + flattened_len l.c + (flattened_len l.f + 2) + flattened_len l.t)
    branch-jumps_over =
        let over : suc (base + flattened_len l.c) + flattened_len l.f + (flattened_len l.t + 1)
            ≡ base + flattened_len l.c + (flattened_len l.f + 2) + flattened_len l.t =
          omega arith in
        subst (BranchMove (suc (base + flattened_len l.c) + flattened_len l.f)) over (
          Moves.local
            (frame_step-jump t fr small (suc (base + flattened_len l.c) + flattened_len l.f)
              (flattened_len l.t + 1) s l.over (omega (arith, l.fits)))
            tt Moves.here)
