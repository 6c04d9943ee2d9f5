-- ===== src/ByteGen/FirstPass/Branching.antt =====
-- The traversal of a branch, from those of its paths and of the rest
-- (smpl/src/code_gen/byte_gen/first_pass.rs).
use smpl_mirror.Common.{
  ℕ, suc, List, [], ◌∷◌, ◌++◌, append_assoc, ◌≤◌, ◌≡◌, refl, ◌∙◌, Option, none, some, arith,
  lookup_id,
}
use smpl_mirror.TypedAst.{Expr}
use smpl_mirror.ByteGen.ByteExpr.{TypingContext}
use smpl_mirror.ByteGen.Partial.{PartialInstruction, BranchFrame}
use smpl_mirror.ByteGen.FirstPass.{
  State, branch_split, branch_end_path, value_of, branch_start_path, set_true_branch,
  set_false_branch,
}
use smpl_mirror.ByteGen.FirstPass.Tree.{Tree, perform, Builds}
use smpl_mirror.ByteGen.FirstPass.Ids.{
  Agree, Same, Puts, Puts-Same, Puts-Same_point, Same-trans, Same-widen, Agree-narrow, Agree-front,
  Agree-behind,
}
use smpl_mirror.ByteGen.FirstPass.Built.{Built, Loops, Branches}
use smpl_mirror.ByteCode.{Arg}
use smpl_mirror.ByteGen.FirstPass.Frames.{
  Code, pass_at, branch_split-Puts, branch_end_path-Puts, branch_merge_lem,
}

abbrev begun_branch : Code → Arg → BranchFrame
begun_branch code result = record {
  result_location = some result;
  condition = some code;
  true_branch = none;
  false_branch = none;
}

abbrev half_branch : Code → Arg → Code → BranchFrame
half_branch code result t = record {
  result_location = some result;
  condition = some code;
  true_branch = some t;
  false_branch = none;
}

abbrev whole_branch : Code → Arg → Code → Code → BranchFrame
whole_branch code result t f = record {
  result_location = some result;
  condition = some code;
  true_branch = some t;
  false_branch = some f;
}

module _ (ty : TypingContext) (lo mid mid' hi id : ℕ) (condition : Expr)
    (true_path false_path rest : Tree) {code : Code} {result : Arg} (loops : Loops)
    (branches : Branches) (le_true : lo ≤ mid) (le : mid ≤ id) (le_false : suc id ≤ mid')
    (le_rest : mid' ≤ hi) (value : value_of ty condition ≡ some (code, result)) where
  -- The pass ends a path of the branch.
  abbrev Ends : (Code → BranchFrame → Option BranchFrame) → Code → Branches → Branches → Type 0
  Ends set body branches branches' =
      (loops : Loops) (fs : List Code) (ss : List State)
      → branch_end_path (pass_at ty none loops branches (body ∷ fs) (State.branching id ∷ ss)) set
        ≡ some (pass_at ty none loops branches' fs (State.branching id ∷ ss))

  abbrev Splits : Branches → Branches → Type 0
  Splits branches branches' =
      (loops : Loops) (f : Code) (fs : List Code) (ss : List State)
      → branch_split (pass_at ty none loops branches (f ∷ fs) ss) id condition
        ≡ some (
            pass_at ty none loops branches' ((f ++ PartialInstruction.branch_mark id ∷ []) ∷ fs)
              (State.branching id ∷ ss))

  branch_close :
      (branches₁ : Branches)
      → Splits branches branches₁
      → (t : Built ty lo mid true_path loops branches₁) (branches₃ : Branches)
      → Ends set_true_branch t.code t.branches' branches₃
      → Puts id (half_branch code result t.code) t.branches' branches₃
      → (f : Built ty (suc id) mid' false_path t.loops' branches₃) (branches₅ : Branches)
      → Ends set_false_branch f.code f.branches' branches₅
      → Puts id (whole_branch code result t.code f.code) f.branches' branches₅
      → Same lo mid' loops f.loops'
      → Same lo mid' branches branches₅
      → (r : Built ty mid' hi rest f.loops' branches₅)
      → Built ty lo hi (Tree.branch id condition true_path false_path rest) loops branches
  unfolding perform branch_start_path
  branch_close branches₁ split t branches₃ end_true put₃ f branches₅ end_false put₅ same same' r =
      record {
        loops' = r.loops';
        branches' = r.branches';
        code = PartialInstruction.branch_mark id ∷ r.code;
        runs = λ top fs ss. rw (
          split loops top fs ss,
          t.runs [] (_ ∷ fs) (State.branching id ∷ ss),
          end_true t.loops' _ ss,
          f.runs [] (_ ∷ fs) (State.branching id ∷ ss),
          end_false f.loops' _ ss,
          branch_merge_lem ty none id f.loops' branches₅ _ ss,
          r.runs (top ++ PartialInstruction.branch_mark id ∷ []) fs ss,
          append_assoc top,
        );
        same_loops =
            Same-trans (Same-widen (omega arith) (omega arith) same)
              (Same-widen (omega arith) (omega arith) r.same_loops);
        same_branches =
            Same-trans (Same-widen (omega arith) (omega arith) same')
              (Same-widen (omega arith) (omega arith) r.same_branches);
        builds = λ sp agree agree'.
            let in_loops : Agree lo mid' f.loops' sp.loops =
              Agree-front r.same_loops (Agree-narrow (omega arith) (omega arith) agree) in
            let in_branches : Agree lo mid' branches₅ sp.branches =
              Agree-front r.same_branches (Agree-narrow (omega arith) (omega arith) agree') in
            let in_true : Agree lo id f.branches' sp.branches =
              Agree-front (Puts-Same_point put₅)
                (Agree-narrow (omega arith) (omega arith) in_branches) in
            let in_true₃ : Agree lo id branches₃ sp.branches =
              Agree-front (Same-widen {hi' = mid'} (omega arith) (omega arith) f.same_branches)
                in_true in
            Builds.branch value
              (agree'.agree id (omega arith) (omega arith)
                ∙ r.same_branches.below id (omega arith)
                ∙ put₅.at)
              (t.builds sp
                (Agree-narrow {lo = lo} {hi = suc id} (omega arith) (omega arith) (
                  Agree-front f.same_loops
                    (Agree-narrow {lo' = lo} {hi' = suc id} (omega arith) (omega arith) in_loops)))
                (Agree-narrow {lo = lo} {hi = id} (omega arith) le
                  (Agree-front (Puts-Same_point put₃) in_true₃)))
              (f.builds sp (Agree-narrow (omega arith) (omega arith) in_loops) (
                Agree-behind (Puts-Same_point put₅)
                  (Agree-narrow (omega arith) (omega arith) in_branches)))
              (r.builds sp (Agree-narrow (omega arith) (omega arith) agree)
                (Agree-narrow (omega arith) (omega arith) agree'));
      }

  abbrev RestBuilt : Type 0
  RestBuilt =
      (loops' : Loops) (branches' : Branches)
      → Same lo mid' loops loops'
      → Same lo mid' branches branches'
      → Built ty mid' hi rest loops' branches'

  branch_after_true :
      (branches₁ : Branches)
      → Splits branches branches₁
      → (t : Built ty lo mid true_path loops branches₁) (branches₃ : Branches)
      → Ends set_true_branch t.code t.branches' branches₃
      → Puts id (half_branch code result t.code) t.branches' branches₃
      → Same lo (suc id) loops t.loops'
      → Same lo (suc id) branches branches₃
      → (f : Built ty (suc id) mid' false_path t.loops' branches₃) → RestBuilt
      → Built ty lo hi (Tree.branch id condition true_path false_path rest) loops branches
  branch_after_true branches₁ split t branches₃ end_true put₃ same₁ same₃ f rest_built =
      let (branches₅, end_false, put₅) =
        branch_end_path-Puts ty none id set_false_branch f.branches' f.code
          (f.same_branches.below id (omega arith) ∙ put₃.at) refl in
      let same₅ : Same lo mid' branches branches₅ =
        Same-trans (Same-widen (omega arith) le_false same₃) (
          Same-trans (Same-widen (omega arith) (omega arith) f.same_branches)
            (Puts-Same (omega arith) (omega arith) put₅)) in
      let same₂ : Same lo mid' loops f.loops' =
        Same-trans (Same-widen (omega arith) le_false same₁)
          (Same-widen (omega arith) (omega arith) f.same_loops) in
      branch_close branches₁ split t branches₃ end_true put₃ f branches₅ end_false put₅ same₂ same₅
        (rest_built f.loops' branches₅ same₂ same₅)

  pub branch_Built :
      lookup_id id branches ≡ none
      → ((branches₁ : Branches)
          → Same id (suc id) branches branches₁
          → Built ty lo mid true_path loops branches₁)
      → ((loops₁ : Loops) (branches₃ : Branches)
          → Same lo (suc id) loops loops₁
          → Same lo (suc id) branches branches₃
          → Built ty (suc id) mid' false_path loops₁ branches₃)
      → RestBuilt
      → Built ty lo hi (Tree.branch id condition true_path false_path rest) loops branches
  branch_Built free true_built false_built rest_built =
      let (branches₁, split, put₁) = branch_split-Puts ty none id condition branches free value in
      let t = true_built branches₁ (Puts-Same_point put₁) in
      let (branches₃, end_true, put₃) =
        branch_end_path-Puts ty none id set_true_branch t.branches' t.code
          (t.same_branches.above id le ∙ put₁.at) refl in
      let same₃ : Same lo (suc id) branches branches₃ =
        Same-trans (Puts-Same (omega arith) (omega arith) put₁) (
          Same-trans (Same-widen (omega arith) (omega arith) t.same_branches)
            (Puts-Same (omega arith) (omega arith) put₃)) in
      let same₁ : Same lo (suc id) loops t.loops' =
        Same-widen (omega arith) (omega arith) t.same_loops in
      branch_after_true branches₁ split t branches₃ end_true put₃ same₁ same₃
        (false_built t.loops' branches₃ same₁ same₃) rest_built
