-- ===== src/ByteGen/Meaning.antt =====
-- What the tree of loops and branches that the first pass leaves means: a big-step relation that
-- knows nothing of addresses. And what byte code does in one frame: the moves of the executor's
-- `frame_step`, with a call taken as one move, by a relation `Returns` that says what a callee
-- gives back.
use smpl_mirror.Common.{ℕ, ◌≡◌, List, [], ◌∷◌, Option, some, Bool, true, false, ok, lookup_id}
use smpl_mirror.ByteCode.{Arg, Instruction}
use smpl_mirror.Machine.Value.{FnHandle, Value}
use smpl_mirror.Machine.Env.{Env}
use smpl_mirror.Machine.Arith.{Target}
use smpl_mirror.Machine.Instr.{
  ExecuteAction, increment_ip, push_stack, pop_stack, execute_instruction, bool_from_arg,
}
use smpl_mirror.Machine.Executor.{ByteCodeStack, frame_step}
use smpl_mirror.ByteGen.Partial.{PartialInstruction}
use smpl_mirror.ByteGen.SecondPass.{SecondPass}

abbrev pub State : Type 0
State = Env × Option Value

pub data Ending : Type 0 where
  finished : State → Ending
  returned : Value → Ending

-- What the instruction does, wherever it stands.
abbrev pub Executes : Target → Instruction → State → ExecuteAction → State → Type 0
Executes t i s action s' = (ip : ℕ) → execute_instruction t i ip s.0 s.1 ≡ ok (action, s'.0, s'.1)

abbrev pub Tests : State → Arg → Bool → Type 0
Tests s a b = (i : Instruction) → bool_from_arg i s.0 a ≡ ok b

abbrev pub HasLoop :
    SecondPass → ℕ → Arg → List PartialInstruction → List PartialInstruction → Type 0
HasLoop sp id result condition body =
    lookup_id id sp.loops
    ≡ some (record { result_location = some result; condition = some condition; body = some body })

abbrev pub HasBranch :
    SecondPass
    → ℕ
    → Arg
    → List PartialInstruction
    → List PartialInstruction
    → List PartialInstruction
    → Type 0
HasBranch sp id result condition true_branch false_branch =
    lookup_id id sp.branches
    ≡ some (record {
      result_location = some result;
      condition = some condition;
      true_branch = some true_branch;
      false_branch = some false_branch;
    })

abbrev pub CallRelation : Type 1
CallRelation = FnHandle → List Value → Value → Type 0

pub data Run (t : Target) (Returns : CallRelation) (sp : SecondPass)
    : List PartialInstruction → State → Ending → Type 0 where
  done : {s : State} → Run t Returns sp [] s (finished s)
  plain :
      {i : Instruction} {rest : List PartialInstruction} {s s' : State} {out : Ending}
      → Executes t i s increment_ip s'
      → Run t Returns sp rest s' out
      → Run t Returns sp (PartialInstruction.instruction i ∷ rest) s out
  call :
      {i : Instruction} {rest : List PartialInstruction} {s s' : State} {out : Ending}
      {h : FnHandle} {vs : List Value} {v : Value}
      → Executes t i s (push_stack h vs) s'
      → Returns h vs v
      → Run t Returns sp rest (s'.0, some v) out
      → Run t Returns sp (PartialInstruction.instruction i ∷ rest) s out
  return :
      {i : Instruction} {rest : List PartialInstruction} {s s' : State} {v : Value}
      → Executes t i s (pop_stack v) s'
      → Run t Returns sp (PartialInstruction.instruction i ∷ rest) s (returned v)
  loop_exit :
      {id : ℕ} {result : Arg} {condition body rest : List PartialInstruction} {s s₁ : State}
      {out : Ending}
      → HasLoop sp id result condition body
      → Run t Returns sp condition s (finished s₁)
      → Tests s₁ result false
      → Run t Returns sp rest s₁ out
      → Run t Returns sp (PartialInstruction.loop_mark id ∷ rest) s out
  loop_again :
      {id : ℕ} {result : Arg} {condition body rest : List PartialInstruction} {s s₁ s₂ : State}
      {out : Ending}
      → HasLoop sp id result condition body
      → Run t Returns sp condition s (finished s₁)
      → Tests s₁ result true
      → Run t Returns sp body s₁ (finished s₂)
      → Run t Returns sp (PartialInstruction.loop_mark id ∷ rest) s₂ out
      → Run t Returns sp (PartialInstruction.loop_mark id ∷ rest) s out
  loop_return :
      {id : ℕ} {result : Arg} {condition body rest : List PartialInstruction} {s s₁ : State}
      {v : Value}
      → HasLoop sp id result condition body
      → Run t Returns sp condition s (finished s₁)
      → Tests s₁ result true
      → Run t Returns sp body s₁ (returned v)
      → Run t Returns sp (PartialInstruction.loop_mark id ∷ rest) s (returned v)
  branch :
      {id : ℕ} {result : Arg} {condition true_branch false_branch rest : List PartialInstruction}
      {s s₁ s₂ : State} {out : Ending} (taken : Bool)
      → HasBranch sp id result condition true_branch false_branch
      → Run t Returns sp condition s (finished s₁)
      → Tests s₁ result taken
      → Run t Returns sp (elim taken [ true ↦ true_branch | false ↦ false_branch ]) s₁ (finished s₂)
      → Run t Returns sp rest s₂ out
      → Run t Returns sp (PartialInstruction.branch_mark id ∷ rest) s out
  branch_return :
      {id : ℕ} {result : Arg} {condition true_branch false_branch rest : List PartialInstruction}
      {s s₁ : State} {v : Value} (taken : Bool)
      → HasBranch sp id result condition true_branch false_branch
      → Run t Returns sp condition s (finished s₁)
      → Tests s₁ result taken
      → Run t Returns sp (elim taken [ true ↦ true_branch | false ↦ false_branch ]) s₁ (returned v)
      → Run t Returns sp (PartialInstruction.branch_mark id ∷ rest) s (returned v)

abbrev pub IsLocal : ExecuteAction → Type 0
IsLocal (push_stack h vs) = ⊥
IsLocal (pop_stack v) = ⊥
IsLocal _ = Unit

pub data Moves (t : Target) (Returns : CallRelation)
    : ByteCodeStack → Option Value → ByteCodeStack → Option Value → Type 0 where
  here : {fr : ByteCodeStack} {reg : Option Value} → Moves t Returns fr reg fr reg
  local :
      {fr fr₁ fr₂ : ByteCodeStack} {reg reg₁ reg₂ : Option Value} {action : ExecuteAction}
      → frame_step t fr reg ≡ ok (action, fr₁, reg₁)
      → IsLocal action
      → Moves t Returns fr₁ reg₁ fr₂ reg₂
      → Moves t Returns fr reg fr₂ reg₂
  call :
      {fr fr₁ fr₂ : ByteCodeStack} {reg reg₁ reg₂ : Option Value} {h : FnHandle} {vs : List Value}
      {v : Value}
      → frame_step t fr reg ≡ ok (push_stack h vs, fr₁, reg₁)
      → Returns h vs v
      → Moves t Returns fr₁ (some v) fr₂ reg₂
      → Moves t Returns fr reg fr₂ reg₂

pub Moves-trans :
    {t : Target} {Returns : CallRelation} {fr fr₁ fr₂ : ByteCodeStack}
    {reg reg₁ reg₂ : Option Value}
    → Moves t Returns fr reg fr₁ reg₁
    → Moves t Returns fr₁ reg₁ fr₂ reg₂
    → Moves t Returns fr reg fr₂ reg₂
Moves-trans here n = n
Moves-trans (local e l m) n = local e l (Moves-trans m n)
Moves-trans (call e r m) n = call e r (Moves-trans m n)

-- The frame at an address in a state.
abbrev pub at : ByteCodeStack → ℕ → State → ByteCodeStack
at fr ip s = record fr { env = s.0; instruction_pointer = ip }

-- How code that ends at an address answers to an ending: it falls through to that address in the
-- state, or it comes to an instruction that returns the value.
abbrev pub Reaches : Target → CallRelation → ByteCodeStack → ℕ → State → ℕ → Ending → Type 0
Reaches t Returns fr ip s stop (finished s') = Moves t Returns (at fr ip s) s.1 (at fr stop s') s'.1
Reaches t Returns fr ip s stop (returned v) =
    (last : ByteCodeStack) × (reg : Option Value) × (last' : ByteCodeStack) × (reg' : Option Value)
    × Moves t Returns (at fr ip s) s.1 last reg
    × (frame_step t last reg ≡ ok (pop_stack v, last', reg'))
