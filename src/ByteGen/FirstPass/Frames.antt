-- ===== src/ByteGen/FirstPass/Frames.antt =====
-- What the methods of smpl/src/code_gen/byte_gen/first_pass.rs do to the frames of loops and
-- branches, said by the lookups in the two maps.
use smpl_mirror.Common.{
  ℕ, List, [], ◌∷◌, ◌++◌, ◌≡◌, Option, none, some, arith, lookup_id, insert_id,
}
use smpl_mirror.ByteGen.FirstPass.Ids.{Puts, insert-Puts, Puts-trans}
use smpl_mirror.ByteCode.{Arg}
use smpl_mirror.TypedAst.{Expr}
use smpl_mirror.ByteGen.ByteExpr.{TypingContext}
use smpl_mirror.ByteGen.Partial.{PartialInstruction, LoopFrame, BranchFrame}
use smpl_mirror.ByteGen.FirstPass.{
  FirstPass, State, branching, loop, loop_head, loop_foot, branch_split, branch_end_path,
  branch_merge, value_of, extend_current_frame,
}

abbrev pub Code : Type 0
Code = List PartialInstruction

-- The pass in the middle of a function.
abbrev pub pass_at :
    TypingContext
    → Option Code
    → List (ℕ × LoopFrame)
    → List (ℕ × BranchFrame)
    → List Code
    → List State
    → FirstPass
pass_at ty ins loops branches frames states = record {
  typing_context = ty;
  instructions = ins;
  loops = loops;
  branches = branches;
  frames = frames;
  states = states;
}

module _ (ty : TypingContext) (ins : Option Code) (id : ℕ) where
  pub loop_head-Puts :
      (condition : Expr) {code : Code} {result : Arg} (loops : List (ℕ × LoopFrame))
      → lookup_id id loops ≡ none
      → value_of ty condition ≡ some (code, result)
      → (loops' : List (ℕ × LoopFrame)) × ((branches : List (ℕ × BranchFrame)) (f : Code)
            (fs : List Code) (ss : List State)
          → loop_head (pass_at ty ins loops branches (f ∷ fs) ss) id condition
            ≡ some (
                pass_at ty ins loops' branches
                  ([] ∷ (f ++ PartialInstruction.loop_mark id ∷ []) ∷ fs)
                  (loop id ∷ ss)))
        × Puts id
            (record { result_location = some result; condition = some code; body = none })
            loops
            loops'
  unfolding loop_head extend_current_frame
  loop_head-Puts condition {code} {result} loops free value =
      let v₁ : LoopFrame = record { result_location = none; condition = none; body = none } in
      let v₂ : LoopFrame = record { result_location = none; condition = some code; body = none } in
      let v₃ : LoopFrame = record {
        result_location = some result;
        condition = some code;
        body = none;
      } in
      let p₁ = insert-Puts id v₁ loops in
      let p₂ = insert-Puts id v₂ (insert_id id v₁ loops) in
      let p₃ = insert-Puts id v₃ (insert_id id v₂ (insert_id id v₁ loops)) in
      (
        insert_id id v₃ (insert_id id v₂ (insert_id id v₁ loops)),
        λ branches f fs ss. rw (free, value, p₁.at, p₂.at),
        Puts-trans p₁ (Puts-trans p₂ p₃),
      )

  pub loop_foot-Puts :
      {code : Code} {result : Arg} (loops : List (ℕ × LoopFrame)) (body : Code)
      → lookup_id id loops
        ≡ some (record { result_location = some result; condition = some code; body = none })
      → (loops' : List (ℕ × LoopFrame)) × ((branches : List (ℕ × BranchFrame)) (fs : List Code)
            (ss : List State)
          → loop_foot (pass_at ty ins loops branches (body ∷ fs) (loop id ∷ ss)) id
            ≡ some (pass_at ty ins loops' branches fs ss))
        × Puts id
            (record { result_location = some result; condition = some code; body = some body })
            loops
            loops'
  unfolding loop_foot
  loop_foot-Puts {code} {result} loops body frame =
      let v : LoopFrame = record {
        result_location = some result;
        condition = some code;
        body = some body;
      } in
      (insert_id id v loops, λ branches fs ss. ground (arith, frame), insert-Puts id v loops)

  pub branch_split-Puts :
      (condition : Expr) {code : Code} {result : Arg} (branches : List (ℕ × BranchFrame))
      → lookup_id id branches ≡ none
      → value_of ty condition ≡ some (code, result)
      → (branches' : List (ℕ × BranchFrame)) × ((loops : List (ℕ × LoopFrame)) (f : Code)
            (fs : List Code) (ss : List State)
          → branch_split (pass_at ty ins loops branches (f ∷ fs) ss) id condition
            ≡ some (
                pass_at ty ins loops branches'
                  ((f ++ PartialInstruction.branch_mark id ∷ []) ∷ fs)
                  (branching id ∷ ss)))
        × Puts id
            (record {
              result_location = some result;
              condition = some code;
              true_branch = none;
              false_branch = none;
            })
            branches
            branches'
  unfolding branch_split extend_current_frame
  branch_split-Puts condition {code} {result} branches free value =
      let v₁ : BranchFrame = record {
        result_location = none;
        condition = none;
        true_branch = none;
        false_branch = none;
      } in
      let v₂ : BranchFrame = record {
        result_location = none;
        condition = some code;
        true_branch = none;
        false_branch = none;
      } in
      let v₃ : BranchFrame = record {
        result_location = some result;
        condition = some code;
        true_branch = none;
        false_branch = none;
      } in
      let p₁ = insert-Puts id v₁ branches in
      let p₂ = insert-Puts id v₂ (insert_id id v₁ branches) in
      let p₃ = insert-Puts id v₃ (insert_id id v₂ (insert_id id v₁ branches)) in
      (
        insert_id id v₃ (insert_id id v₂ (insert_id id v₁ branches)),
        λ loops f fs ss. rw (free, value, p₁.at, p₂.at),
        Puts-trans p₁ (Puts-trans p₂ p₃),
      )

  pub branch_end_path-Puts :
      (set : Code → BranchFrame → Option BranchFrame) {old new : BranchFrame}
      (branches : List (ℕ × BranchFrame)) (body : Code)
      → lookup_id id branches ≡ some old
      → set body old ≡ some new
      → (branches' : List (ℕ × BranchFrame)) × ((loops : List (ℕ × LoopFrame)) (fs : List Code)
            (ss : List State)
          → branch_end_path (pass_at ty ins loops branches (body ∷ fs) (branching id ∷ ss)) set
            ≡ some (pass_at ty ins loops branches' fs (branching id ∷ ss)))
        × Puts id new branches branches'
  unfolding branch_end_path
  branch_end_path-Puts set {old} {new} branches body frame is_set =
      (insert_id id new branches, λ loops fs ss. rw (frame, is_set), insert-Puts id new branches)

  pub branch_merge_lem :
      (loops : List (ℕ × LoopFrame)) (branches : List (ℕ × BranchFrame)) (fs : List Code)
      (ss : List State)
      → branch_merge (pass_at ty ins loops branches fs (branching id ∷ ss)) id
        ≡ some (pass_at ty ins loops branches fs ss)
  unfolding branch_merge
  branch_merge_lem loops branches fs ss = ground arith
