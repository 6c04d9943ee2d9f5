-- ===== src/ByteGen/FirstPass/Doing.antt =====
-- What structured code does, by its loops and branches: a big-step relation on the tree, which
-- knows nothing of frames, marks and addresses. It does the code of
-- smpl/src/code_gen/byte_gen/first_pass.rs for a simple statement and for a condition.
use smpl_mirror.Common.{ℕ, List, [], ◌∷◌, ◌≡◌, some, Bool, true, false}
use smpl_mirror.ByteCode.{Arg, Instruction}
use smpl_mirror.TypedAst.{Expr}
use smpl_mirror.Machine.Value.{FnHandle, Value}
use smpl_mirror.Machine.Arith.{Target}
use smpl_mirror.Machine.Instr.{increment_ip, push_stack, pop_stack}
use smpl_mirror.ByteGen.ByteExpr.{TypingContext}
use smpl_mirror.ByteGen.Partial.{PartialInstruction}
use smpl_mirror.ByteGen.Meaning.{State, Ending, finished, returned, Executes, Tests, CallRelation}
use smpl_mirror.ByteGen.FirstPass.{value_of}
use smpl_mirror.ByteGen.FirstPass.Tree.{Simple, Tree, simple_code}

module _ (t : Target) (Returns : CallRelation) where
  -- A line of instructions, one after the other.
  pub data Line : List PartialInstruction → State → Ending → Type 0 where
    done : {s : State} → Line [] s (finished s)
    plain :
        {i : Instruction} {rest : List PartialInstruction} {s s' : State} {out : Ending}
        → Executes t i s increment_ip s'
        → Line rest s' out
        → Line (PartialInstruction.instruction i ∷ rest) s out
    call :
        {i : Instruction} {rest : List PartialInstruction} {s s' : State} {out : Ending}
        {h : FnHandle} {vs : List Value} {v : Value}
        → Executes t i s (push_stack h vs) s'
        → Returns h vs v
        → Line rest (s'.0, some v) out
        → Line (PartialInstruction.instruction i ∷ rest) s out
    return :
        {i : Instruction} {rest : List PartialInstruction} {s s' : State} {v : Value}
        → Executes t i s (pop_stack v) s'
        → Line (PartialInstruction.instruction i ∷ rest) s (returned v)

  -- The condition is computed, and its value is the truth value.
  pub record Decides (ty : TypingContext) (condition : Expr) (s : State) (b : Bool) (s' : State)
      : Type 0 where
    pub code : List PartialInstruction
    pub result : Arg
    pub translates : value_of ty condition ≡ some (code, result)
    pub computes : Line code s (finished s')
    pub tests : Tests s' result b

  pub data Does (ty : TypingContext) : Tree → State → Ending → Type 0 where
    done : {s : State} → Does ty Tree.done s (finished s)
    simple :
        {statement : Simple} {rest : Tree} {code : List PartialInstruction} {s s' : State}
        {out : Ending}
        → simple_code ty statement ≡ some code
        → Line code s (finished s')
        → Does ty rest s' out
        → Does ty (Tree.simple statement rest) s out
    simple_return :
        {statement : Simple} {rest : Tree} {code : List PartialInstruction} {s : State} {v : Value}
        → simple_code ty statement ≡ some code
        → Line code s (returned v)
        → Does ty (Tree.simple statement rest) s (returned v)
    loop_exit :
        {id : ℕ} {condition : Expr} {body rest : Tree} {s s₁ : State} {out : Ending}
        → Decides ty condition s false s₁
        → Does ty rest s₁ out
        → Does ty (Tree.loop id condition body rest) s out
    loop_again :
        {id : ℕ} {condition : Expr} {body rest : Tree} {s s₁ s₂ : State} {out : Ending}
        → Decides ty condition s true s₁
        → Does ty body s₁ (finished s₂)
        → Does ty (Tree.loop id condition body rest) s₂ out
        → Does ty (Tree.loop id condition body rest) s out
    loop_return :
        {id : ℕ} {condition : Expr} {body rest : Tree} {s s₁ : State} {v : Value}
        → Decides ty condition s true s₁
        → Does ty body s₁ (returned v)
        → Does ty (Tree.loop id condition body rest) s (returned v)
    branch :
        {id : ℕ} {condition : Expr} {true_path false_path rest : Tree} {s s₁ s₂ : State}
        {out : Ending} (taken : Bool)
        → Decides ty condition s taken s₁
        → Does ty (elim taken [ true ↦ true_path | false ↦ false_path ]) s₁ (finished s₂)
        → Does ty rest s₂ out
        → Does ty (Tree.branch id condition true_path false_path rest) s out
    branch_return :
        {id : ℕ} {condition : Expr} {true_path false_path rest : Tree} {s s₁ : State} {v : Value}
        (taken : Bool)
        → Decides ty condition s taken s₁
        → Does ty (elim taken [ true ↦ true_path | false ↦ false_path ]) s₁ (returned v)
        → Does ty (Tree.branch id condition true_path false_path rest) s (returned v)
