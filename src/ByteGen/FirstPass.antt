-- ===== src/ByteGen/FirstPass.antt =====
-- smpl/src/code_gen/byte_gen/first_pass.rs: the pass that hears of the nodes of a control flow
-- graph in their order and puts the code of loops and branches in frames. `none` is a panic; the
-- methods never return an error. The frame and the state pushed last stand first.
pub mod Frames
pub mod Builds
pub mod Branching
pub mod Built
pub mod Looping
pub mod Ids
pub mod Plain
pub mod Doing
pub mod Executing
mod Tests
pub mod Riding
pub mod Traversed
pub mod Entry
pub mod Met
pub mod Visits
pub mod Tree
pub mod Whole
use smpl_mirror.Common.{
  ℕ, String, List, [], ◌∷◌, ◌++◌, map, Option, none, some, Bool, true, false, ◌==◌, if◌then◌else◌,
  lookup_id, insert_id,
}
use smpl_mirror.Common.Options.{◌>>=◌}
use smpl_mirror.ByteCode.{FieldAccess, Location, Arg, Instruction}
use smpl_mirror.TypedAst.{Expr, FieldPath, path_of, last}
use smpl_mirror.ByteGen.ByteExpr.{TypingContext, translate_expr, translate_path, tmp_arg}
use smpl_mirror.ByteGen.Partial.{
  PartialInstruction, LoopFrame, new_loop_frame, BranchFrame, new_branch_frame,
}
use smpl_mirror.ByteGen.SecondPass.{SecondPass}

pub data State : Type 0 where
  start : State
  branching : ℕ → State
  loop : ℕ → State
  normal : State

pub record FirstPass : Type 0 where
  pub typing_context : TypingContext
  pub instructions : Option (List PartialInstruction)
  pub loops : List (ℕ × LoopFrame)
  pub branches : List (ℕ × BranchFrame)
  pub frames : List (List PartialInstruction)
  pub states : List State

abbrev pub new : TypingContext → FirstPass
new ty = record {
  typing_context = ty;
  instructions = none;
  loops = [];
  branches = [];
  frames = [];
  states = [];
}

-- What a method makes of the pass.
abbrev pub Passed : Type 0
Passed = Option FirstPass

-- The setters of a frame, which panic on a part that is set.
abbrev set_once {ℓ} : {A : Type ℓ} → Option A → A → Option (Option A)
set_once none a = some (some a)
set_once (some old) a = none

abbrev pub set_loop_condition : List PartialInstruction → LoopFrame → Option LoopFrame
set_loop_condition c f = do
  condition ← set_once f.condition c
  some (record f { condition = condition })

abbrev pub set_loop_result : Arg → LoopFrame → Option LoopFrame
set_loop_result a f = do
  location ← set_once f.result_location a
  some (record f { result_location = location })

abbrev pub set_body : List PartialInstruction → LoopFrame → Option LoopFrame
set_body b f = do body ← set_once f.body b; some (record f { body = body })

abbrev pub set_branch_condition : List PartialInstruction → BranchFrame → Option BranchFrame
set_branch_condition c f = do
  condition ← set_once f.condition c
  some (record f { condition = condition })

abbrev pub set_branch_result : Arg → BranchFrame → Option BranchFrame
set_branch_result a f = do
  location ← set_once f.result_location a
  some (record f { result_location = location })

abbrev pub set_true_branch : List PartialInstruction → BranchFrame → Option BranchFrame
set_true_branch b f = do body ← set_once f.true_branch b; some (record f { true_branch = body })

abbrev pub set_false_branch : List PartialInstruction → BranchFrame → Option BranchFrame
set_false_branch b f = do body ← set_once f.false_branch b; some (record f { false_branch = body })

-- A new frame under an id, and the change of the frame under an id.
abbrev pub insert_frame {ℓ} : {A : Type ℓ} → ℕ → A → List (ℕ × A) → Option (List (ℕ × A))
insert_frame id f m = elim (lookup_id id m) [ none ↦ some (insert_id id f m) | some old ↦ none ]

abbrev pub change_frame {ℓ} :
    {A : Type ℓ} → ℕ → (A → Option A) → List (ℕ × A) → Option (List (ℕ × A))
change_frame id change m = do f ← lookup_id id m; f' ← change f; some (insert_id id f' m)

abbrev pub extend_frames :
    List PartialInstruction
    → List (List PartialInstruction)
    → Option (List (List PartialInstruction))
extend_frames is [] = none
extend_frames is (frame ∷ frames) = some ((frame ++ is) ∷ frames)

unfoldable pub extend_current_frame : List PartialInstruction → FirstPass → Passed
extend_current_frame is p = do
  frames ← extend_frames is p.frames
  some (record p { frames = frames })

abbrev pub push_to_current_frame : PartialInstruction → FirstPass → Passed
push_to_current_frame i p = extend_current_frame (i ∷ []) p

abbrev pub new_frame : FirstPass → FirstPass
new_frame p = record p { frames = [] ∷ p.frames }

abbrev pub push_state : State → FirstPass → FirstPass
push_state s p = record p { states = s ∷ p.states }

-- `pop_current_frame` and `pop_state`
abbrev pub pop {ℓ} : {A : Type ℓ} → List A → Option (A × List A)
pop [] = none
pop (a ∷ rest) = some (a, rest)

abbrev pub as_instructions : List Instruction → List PartialInstruction
as_instructions is = map PartialInstruction.instruction is

-- The code of an expression, and the temporary that holds its value.
unfoldable pub value_of : TypingContext → Expr → Option (List PartialInstruction × Arg)
unfolding translate_expr
value_of ty e = do is ← translate_expr ty e; id ← last e; some (as_instructions is, tmp_arg id)

module _ (p : FirstPass) where
  unfoldable pub on_start : Passed
  on_start = some (new_frame (push_state start p))

  abbrev ended :
      State
      → List State
      → List PartialInstruction
      → List (List PartialInstruction)
      → Option (List PartialInstruction)
      → Passed
  ended start states body frames none =
      some (record p { instructions = some body; frames = frames; states = states })
  ended _ states body frames _ = none

  unfoldable pub on_end : Passed
  on_end = do
    (old_state, states) ← pop p.states
    (function_body, frames) ← pop p.frames
    ended old_state states function_body frames p.instructions

  unfoldable pub loop_head : ℕ → Expr → Passed
  unfolding extend_current_frame value_of
  loop_head id condition = do
    p₁ ← push_to_current_frame (PartialInstruction.loop_mark id) p
    loops ← insert_frame id new_loop_frame p₁.loops
    (code, result) ← value_of p.typing_context condition
    loops₁ ← change_frame id (set_loop_condition code) loops
    loops₂ ← change_frame id (set_loop_result result) loops₁
    some (push_state (loop id) (record (new_frame p₁) { loops = loops₂ }))

  -- The check that the state belongs to the loop or to the branch.
  abbrev is_loop : ℕ → State → Option (Unit {0})
  is_loop id (loop j) = if j == id then some tt else none
  is_loop id _ = none

  abbrev is_branching : ℕ → State → Option (Unit {0})
  is_branching id (branching j) = if j == id then some tt else none
  is_branching id _ = none

  unfoldable pub loop_foot : ℕ → Passed
  loop_foot id = do
    (old_state, states) ← pop p.states
    checked ← is_loop id old_state
    (loop_body, frames) ← pop p.frames
    loops ← change_frame id (set_body loop_body) p.loops
    some (record p { loops = loops; frames = frames; states = states })

  unfoldable pub cont : ℕ → Passed
  unfolding extend_current_frame
  cont id = push_to_current_frame (PartialInstruction.continue id) p

  unfoldable pub br : ℕ → Passed
  unfolding extend_current_frame
  br id = push_to_current_frame (PartialInstruction.break id) p

  unfoldable pub local_var_decl : String → Expr → Passed
  unfolding extend_current_frame value_of
  local_var_decl name init = do
    (code, value) ← value_of p.typing_context init
    p₁ ← extend_current_frame code p
    push_to_current_frame
        (PartialInstruction.instruction (Instruction.store (Location.namespace name) value)) p₁

  -- The value is computed before the indices of the path.
  unfoldable pub assignment : FieldPath → Expr → Passed
  unfolding extend_current_frame value_of translate_path
  assignment assignee e = do
    (code, value) ← value_of p.typing_context e
    (access, location) ← translate_path p.typing_context assignee
    p₁ ← extend_current_frame code p
    p₂ ← extend_current_frame (as_instructions access) p₁
    push_to_current_frame (PartialInstruction.instruction (Instruction.store location value)) p₂

  unfoldable pub expr : Expr → Passed
  unfolding extend_current_frame translate_expr
  expr e = do is ← translate_expr p.typing_context e; extend_current_frame (as_instructions is) p

  unfoldable pub ret : Option Expr → Passed
  unfolding extend_current_frame value_of
  ret none = push_to_current_frame (PartialInstruction.instruction (Instruction.return none)) p
  ret (some e) = do
    (code, value) ← value_of p.typing_context e
    p₁ ← extend_current_frame code p
    push_to_current_frame (PartialInstruction.instruction (Instruction.return (some value))) p₁

  unfoldable pub branch_split : ℕ → Expr → Passed
  unfolding extend_current_frame value_of
  branch_split id condition = do
    p₁ ← push_to_current_frame (PartialInstruction.branch_mark id) p
    branches ← insert_frame id new_branch_frame p₁.branches
    (code, result) ← value_of p.typing_context condition
    branches₁ ← change_frame id (set_branch_condition code) branches
    branches₂ ← change_frame id (set_branch_result result) branches₁
    some (push_state (branching id) (record p₁ { branches = branches₂ }))

  unfoldable pub branch_merge : ℕ → Passed
  branch_merge id = do
    (old_state, states) ← pop p.states
    checked ← is_branching id old_state
    some (record p { states = states })

  -- `branch_start_true_path` and `branch_start_false_path`
  unfoldable pub branch_start_path : Passed
  branch_start_path = some (new_frame p)

  abbrev branch_id_of : State → Option ℕ
  branch_id_of (branching id) = some id
  branch_id_of _ = none

  -- `branch_end_true_path` and `branch_end_false_path`, by the part that they set. The branch is
  -- that of the state, not that of the node.
  unfoldable pub branch_end_path :
      (List PartialInstruction → BranchFrame → Option BranchFrame) → Passed
  branch_end_path set = do
    (body, frames) ← pop p.frames
    (state, states) ← pop p.states
    id ← branch_id_of state
    branches ← change_frame id (set body) p.branches
    some (record p { branches = branches; frames = frames })

-- `SecondPass::from`
abbrev pub into_second_pass : FirstPass → Option SecondPass
into_second_pass p = do
  body ← p.instructions
  some (record { main_body = body; loops = p.loops; branches = p.branches })
