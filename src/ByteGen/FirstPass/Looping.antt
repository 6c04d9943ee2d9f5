-- ===== src/ByteGen/FirstPass/Looping.antt =====
-- The traversal of a loop and of a branch, from those of their parts
-- (smpl/src/code_gen/byte_gen/first_pass.rs).
use smpl_mirror.Common.{
  ℕ, suc, List, [], ◌∷◌, ◌++◌, append_assoc, ◌≤◌, ◌≡◌, ◌∙◌, none, some, arith, lookup_id,
}
use smpl_mirror.TypedAst.{Expr}
use smpl_mirror.ByteGen.ByteExpr.{TypingContext}
use smpl_mirror.ByteGen.Partial.{PartialInstruction, LoopFrame}
use smpl_mirror.ByteGen.FirstPass.{State, loop_head, loop_foot, value_of}
use smpl_mirror.ByteGen.FirstPass.Tree.{Tree, perform, Builds}
use smpl_mirror.ByteGen.FirstPass.Ids.{
  Same, Puts, Puts-Same, Puts-Same_point, Same-trans, Same-widen, Agree-narrow, Agree-front,
  Agree-behind,
}
use smpl_mirror.ByteGen.FirstPass.Built.{Built, Loops, Branches}
use smpl_mirror.ByteCode.{Arg}
use smpl_mirror.ByteGen.FirstPass.Frames.{Code, pass_at, loop_head-Puts, loop_foot-Puts}

abbrev begun_loop : Code → Arg → LoopFrame
begun_loop code result = record {
  result_location = some result;
  condition = some code;
  body = none;
}

abbrev whole_loop : Code → Arg → Code → LoopFrame
whole_loop code result body = record {
  result_location = some result;
  condition = some code;
  body = some body;
}

module _ (ty : TypingContext) (lo mid hi id : ℕ) (condition : Expr) (body rest : Tree) {code : Code}
    {result : Arg} (loops : Loops) (branches : Branches) (le : lo ≤ id) (le_body : suc id ≤ mid)
    (le_rest : mid ≤ hi) (value : value_of ty condition ≡ some (code, result)) where
  loop_close :
      (loops₁ : Loops)
      → ((branches : Branches) (f : Code) (fs : List Code) (ss : List State)
          → loop_head (pass_at ty none loops branches (f ∷ fs) ss) id condition
            ≡ some (
                pass_at ty none loops₁ branches
                  ([] ∷ (f ++ PartialInstruction.loop_mark id ∷ []) ∷ fs)
                  (State.loop id ∷ ss)))
      → (b : Built ty (suc id) mid body loops₁ branches) (loops₃ : Loops)
      → ((branches : Branches) (fs : List Code) (ss : List State)
          → loop_foot (pass_at ty none b.loops' branches (b.code ∷ fs) (State.loop id ∷ ss)) id
            ≡ some (pass_at ty none loops₃ branches fs ss))
      → Puts id (whole_loop code result b.code) b.loops' loops₃
      → Same lo mid loops loops₃
      → (r : Built ty mid hi rest loops₃ b.branches')
      → Built ty lo hi (Tree.loop id condition body rest) loops branches
  unfolding perform
  loop_close loops₁ head b loops₃ foot put same r = record {
    loops' = r.loops';
    branches' = r.branches';
    code = PartialInstruction.loop_mark id ∷ r.code;
    runs = λ f fs ss. rw (
      head branches f fs ss,
      b.runs [] (_ ∷ fs) (State.loop id ∷ ss),
      foot b.branches' _ ss,
      r.runs (f ++ PartialInstruction.loop_mark id ∷ []) fs ss,
      append_assoc f,
    );
    same_loops =
        Same-trans (Same-widen (omega arith) le_rest same)
          (Same-widen (omega arith) (omega arith) r.same_loops);
    same_branches =
        Same-trans (Same-widen (omega arith) le_rest b.same_branches)
          (Same-widen (omega arith) (omega arith) r.same_branches);
    builds = λ sp agree agree'.
        Builds.loop value (agree.agree id le (omega arith) ∙ r.same_loops.below id le_body ∙ put.at)
          (b.builds sp
            (Agree-behind (Puts-Same_point put)
              (Agree-front r.same_loops (Agree-narrow (omega arith) le_rest agree)))
            (Agree-front r.same_branches (Agree-narrow (omega arith) le_rest agree')))
          (r.builds sp (Agree-narrow (omega arith) (omega arith) agree)
            (Agree-narrow (omega arith) (omega arith) agree'));
  }

  pub loop_Built :
      lookup_id id loops ≡ none
      → ((loops₁ : Loops)
          → Same id (suc id) loops loops₁
          → Built ty (suc id) mid body loops₁ branches)
      → ((loops₃ : Loops) (branches₃ : Branches)
          → Same lo mid loops loops₃
          → Same (suc id) mid branches branches₃
          → Built ty mid hi rest loops₃ branches₃)
      → Built ty lo hi (Tree.loop id condition body rest) loops branches
  loop_Built free body_built rest_built =
      let (loops₁, head, put₁) = loop_head-Puts ty none id condition loops free value in
      let b = body_built loops₁ (Puts-Same_point put₁) in
      let (loops₃, foot, put₃) =
        loop_foot-Puts ty none id b.loops' b.code (b.same_loops.below id (omega arith) ∙ put₁.at) in
      let same : Same lo mid loops loops₃ = Same-trans (Puts-Same le le_body put₁) (
        Same-trans (Same-widen (omega arith) (omega arith) b.same_loops)
          (Puts-Same le le_body put₃)) in
      loop_close loops₁ head b loops₃ foot put₃ same
        (rest_built loops₃ b.branches' same b.same_branches)
