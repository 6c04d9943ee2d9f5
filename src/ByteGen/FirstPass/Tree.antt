-- ===== src/ByteGen/FirstPass/Tree.antt =====
-- Structured code, and the calls that the first pass hears as it is traversed: those that
-- smpl/src/analysis/linear_cfg_traversal.rs makes for the nodes of such code.
use smpl_mirror.Common.{ℕ, suc, String, List, [], ◌∷◌, ◌++◌, ◌≤◌, Option, none, some, ◌≡◌}
use smpl_mirror.Common.Options.{◌>>=◌}
use smpl_mirror.ByteCode.{Location, Arg, Instruction}
use smpl_mirror.TypedAst.{Expr, FieldPath}
use smpl_mirror.ByteGen.ByteExpr.{TypingContext, translate_expr, translate_path}
use smpl_mirror.ByteGen.Partial.{PartialInstruction}
use smpl_mirror.ByteGen.SecondPass.{SecondPass}
use smpl_mirror.ByteGen.FirstPass.{
  FirstPass, Passed, on_start, on_end, loop_head, loop_foot, cont, br, local_var_decl, assignment,
  expr, ret, branch_split, branch_merge, branch_start_path, branch_end_path, set_true_branch,
  set_false_branch, into_second_pass, value_of, as_instructions,
}
use smpl_mirror.ByteGen.FirstPass
use smpl_mirror.ByteGen.Meaning.{HasLoop, HasBranch}

pub data Simple : Type 0 where
  decl : String → Expr → Simple
  assign : FieldPath → Expr → Simple
  expr_stmt : Expr → Simple
  return_stmt : Option Expr → Simple
  continue_stmt break_stmt : ℕ → Simple

pub data Tree : Type 0 where
  done : Tree
  simple : Simple → Tree → Tree
  loop : ℕ → Expr → Tree → Tree → Tree
  branch : ℕ → Expr → Tree → Tree → Tree → Tree

abbrev pub visit_simple : Simple → FirstPass → Passed
visit_simple (decl x e) p = local_var_decl p x e
visit_simple (assign path e) p = assignment p path e
visit_simple (expr_stmt e) p = expr p e
visit_simple (return_stmt e) p = ret p e
visit_simple (continue_stmt id) p = cont p id
visit_simple (break_stmt id) p = br p id

unfoldable pub perform : Tree → FirstPass → Passed
perform done p = some p
perform (simple s rest) p = do p₁ ← visit_simple s p; perform rest p₁
perform (loop id condition body rest) p = do
  p₁ ← loop_head p id condition
  p₂ ← perform body p₁
  p₃ ← loop_foot p₂ id
  perform rest p₃
perform (branch id condition true_path false_path rest) p = do
  p₁ ← branch_split p id condition
  p₂ ← branch_start_path p₁
  p₃ ← perform true_path p₂
  p₄ ← branch_end_path p₃ set_true_branch
  p₅ ← branch_start_path p₄
  p₆ ← perform false_path p₅
  p₇ ← branch_end_path p₆ set_false_branch
  p₈ ← branch_merge p₇ id
  perform rest p₈

unfoldable pub first_pass : TypingContext → Tree → Option SecondPass
unfolding perform
first_pass ty tree = do
  p ← on_start (FirstPass.new ty)
  p₁ ← perform tree p
  p₂ ← on_end p₁
  into_second_pass p₂

-- The code of a simple statement.
unfoldable pub simple_code : TypingContext → Simple → Option (List PartialInstruction)
simple_code ty (decl x e) = do
  (code, value) ← value_of ty e
  some
      (code ++ PartialInstruction.instruction (Instruction.store (Location.namespace x) value) ∷ [])
simple_code ty (assign path e) = do
  (code, value) ← value_of ty e
  (access, location) ← translate_path ty path
  some (
      code
      ++ (as_instructions access
          ++ PartialInstruction.instruction (Instruction.store location value) ∷ []))
simple_code ty (expr_stmt e) = do is ← translate_expr ty e; some (as_instructions is)
simple_code ty (return_stmt none) =
    some (PartialInstruction.instruction (Instruction.return none) ∷ [])
simple_code ty (return_stmt (some e)) = do
  (code, value) ← value_of ty e
  some (code ++ PartialInstruction.instruction (Instruction.return (some value)) ∷ [])
simple_code ty (continue_stmt id) = some (PartialInstruction.continue id ∷ [])
simple_code ty (break_stmt id) = some (PartialInstruction.break id ∷ [])

-- The items are the code of the tree: the code of its simple statements, and marks whose frames
-- hold the code of the conditions and of the paths.
pub data Builds (ty : TypingContext) (sp : SecondPass)
    : Tree → List PartialInstruction → Type 0 where
  done : Builds ty sp Tree.done []
  simple :
      {s : Simple} {rest : Tree} {code items : List PartialInstruction}
      → simple_code ty s ≡ some code
      → Builds ty sp rest items
      → Builds ty sp (Tree.simple s rest) (code ++ items)
  loop :
      {id : ℕ} {condition : Expr} {body rest : Tree} {code b items : List PartialInstruction}
      {result : Arg}
      → value_of ty condition ≡ some (code, result)
      → HasLoop sp id result code b
      → Builds ty sp body b
      → Builds ty sp rest items
      → Builds ty sp (Tree.loop id condition body rest) (PartialInstruction.loop_mark id ∷ items)
  branch :
      {id : ℕ} {condition : Expr} {true_path false_path rest : Tree}
      {code t f items : List PartialInstruction} {result : Arg}
      → value_of ty condition ≡ some (code, result)
      → HasBranch sp id result code t f
      → Builds ty sp true_path t
      → Builds ty sp false_path f
      → Builds ty sp rest items
      → Builds ty sp
          (Tree.branch id condition true_path false_path rest)
          (PartialInstruction.branch_mark id ∷ items)

-- Every expression of the tree translates, and the ids of its loops and branches lie from the
-- first number on and below the second, as a counter gives them: that of a loop before those of
-- its body, and that of a branch between those of its paths.
pub data Ready (ty : TypingContext) : ℕ → ℕ → Tree → Type 0 where
  done : {lo hi : ℕ} → lo ≤ hi → Ready ty lo hi Tree.done
  simple :
      {lo hi : ℕ} {s : Simple} {rest : Tree} {code : List PartialInstruction}
      → simple_code ty s ≡ some code
      → Ready ty lo hi rest
      → Ready ty lo hi (Tree.simple s rest)
  loop :
      {lo mid hi id : ℕ} {condition : Expr} {body rest : Tree} {code : List PartialInstruction}
      {result : Arg}
      → lo ≤ id
      → value_of ty condition ≡ some (code, result)
      → Ready ty (suc id) mid body
      → Ready ty mid hi rest
      → Ready ty lo hi (Tree.loop id condition body rest)
  branch :
      {lo mid mid' hi id : ℕ} {condition : Expr} {true_path false_path rest : Tree}
      {code : List PartialInstruction} {result : Arg}
      → value_of ty condition ≡ some (code, result)
      → Ready ty lo mid true_path
      → mid ≤ id
      → Ready ty (suc id) mid' false_path
      → Ready ty mid' hi rest
      → Ready ty lo hi (Tree.branch id condition true_path false_path rest)
