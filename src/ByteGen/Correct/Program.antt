-- ===== src/ByteGen/Correct/Program.antt =====
-- From the moves of one frame to the steps of the executor, calls and all.
use smpl_mirror.Common.{
  ℕ, zero, suc, ◌≡◌, refl, ◌∙◌, ◌⊎◌, inl, inr, List, [], ◌∷◌, Option, some, false, Outcome, ok,
}
use smpl_mirror.Machine.Value.{FnHandle, Value}
use smpl_mirror.Machine.Env.{Env}
use smpl_mirror.Machine.Errors.{Error}
use smpl_mirror.Machine.Arith.{Target}
use smpl_mirror.ByteCode.{Instruction}
use smpl_mirror.Machine.Instr.{ExecuteAction, increment_ip, set_ip, add_ip, push_stack, pop_stack}
use smpl_mirror.Machine.Executor.{
  BuiltinFn, Metadata, ByteCodeStack, BuiltinStack, StackInfo, byte_code_stack, builtin_stack,
  Executor, create_stack_info, frame_step, top_step, act, step, execute, popped,
}
use smpl_mirror.ByteGen.Meaning.{CallRelation, Moves, IsLocal}

-- What an executor never changes.
pub record Program : Type 0 where
  pub metadata : Metadata
  pub compiled : List (ℕ × List Instruction)
  pub builtins : List (ℕ × BuiltinFn)
  pub module_env : Env

abbrev pub running : Program → StackInfo → List StackInfo → Option Value → Executor
running p top stack reg = record {
  metadata = p.metadata;
  top = top;
  stack = stack;
  compiled = p.compiled;
  builtins = p.builtins;
  return_register = reg;
  module_env = p.module_env;
  finished = false;
}

abbrev pub Creates : Program → FnHandle → List Value → StackInfo → Type 0
Creates p h vs callee =
    create_stack_info p.metadata p.compiled p.builtins p.module_env h vs ≡ ok callee

pub data Steps (t : Target) : Executor → Executor → Type 0 where
  here : {x : Executor} → Steps t x x
  next : {x y z : Executor} → x.finished ≡ false → step t x ≡ ok y → Steps t y z → Steps t x z

Steps-trans : {t : Target} {x y z : Executor} → Steps t x y → Steps t y z → Steps t x z
Steps-trans Steps.here n = n
Steps-trans (Steps.next a e m) n = Steps.next a e (Steps-trans m n)

module _ (t : Target) (p : Program) (fr fr' : ByteCodeStack) (stack : List StackInfo)
    (reg reg' : Option Value) where
  step-local :
      (action : ExecuteAction)
      → frame_step t fr reg ≡ ok (action, fr', reg')
      → IsLocal action
      → step t (running p (byte_code_stack fr) stack reg)
        ≡ ok (running p (byte_code_stack fr') stack reg')
  unfolding step top_step act
  step-local increment_ip e l = rw e
  step-local (set_ip n) e l = rw e
  step-local (add_ip z) e l = rw e
  step-local (push_stack h vs) e l = absurd l
  step-local (pop_stack v) e l = absurd l

  step-call :
      (h : FnHandle) (vs : List Value) (callee : StackInfo)
      → frame_step t fr reg ≡ ok (push_stack h vs, fr', reg')
      → Creates p h vs callee
      → step t (running p (byte_code_stack fr) stack reg)
        ≡ ok (running p callee (byte_code_stack fr' ∷ stack) reg')
  unfolding step top_step act
  step-call h vs callee e c = rw (e, c)

  step-return :
      (caller : StackInfo) (v : Value)
      → frame_step t fr reg ≡ ok (pop_stack v, fr', reg')
      → step t (running p (byte_code_stack fr) (caller ∷ stack) reg)
        ≡ ok (running p caller stack (some v))
  unfolding step top_step act
  step-return caller v e = rw e

step-builtin :
    (t : Target) (p : Program) (b : BuiltinStack) (caller : StackInfo) (stack : List StackInfo)
    (reg : Option Value) (v : Value)
    → b.current_fn b.args ≡ ok v
    → step t (running p (builtin_stack b) (caller ∷ stack) reg)
      ≡ ok (running p caller stack (some v))
unfolding step top_step act
step-builtin t p b caller stack reg v e = rw e

-- A call relation that the executor keeps: a callee that is pushed comes back to its caller with
-- the value in the return register.
abbrev pub IsKept : Target → Program → CallRelation → Type 0
IsKept t p Returns =
    (h : FnHandle) (vs : List Value) (v : Value)
    → Returns h vs v
    → (callee : StackInfo) × Creates p h vs callee
      × ((caller : StackInfo) (callers : List StackInfo) (reg : Option Value)
          → Steps t (running p callee (caller ∷ callers) reg) (running p caller callers (some v)))

pub Moves-Steps :
    {t : Target} (p : Program) {Returns : CallRelation} {fr fr' : ByteCodeStack}
    {reg reg' : Option Value} (stack : List StackInfo)
    → IsKept t p Returns
    → Moves t Returns fr reg fr' reg'
    → Steps t
        (running p (byte_code_stack fr) stack reg)
        (running p (byte_code_stack fr') stack reg')
Moves-Steps p stack kept Moves.here = Steps.here
Moves-Steps {t} p stack kept
      (Moves.local {fr = fr} {fr₁ = fr₁} {reg = reg} {reg₁ = reg₁} {action = action} e l m) =
    Steps.next refl (step-local t p fr fr₁ stack reg reg₁ action e l) (Moves-Steps p stack kept m)
Moves-Steps {t} p stack kept
      (Moves.call {fr = fr} {fr₁ = fr₁} {reg = reg} {reg₁ = reg₁} {h = h} {vs = vs} {v = v} e r m) =
    let (callee, c, back) = kept h vs v r in
    Steps.next refl (step-call t p fr fr₁ stack reg reg₁ h vs callee e c)
      (Steps-trans (back (byte_code_stack fr₁) stack reg₁) (Moves-Steps p stack kept m))

-- The frame comes to an instruction that pops it with the value.
abbrev pub Answers : Target → CallRelation → ByteCodeStack → Option Value → Value → Type 0
Answers t Returns fr reg v =
    (last : ByteCodeStack) × (reg' : Option Value) × (last' : ByteCodeStack) × (reg'' : Option
      Value)
    × Moves t Returns fr reg last reg'
    × (frame_step t last reg' ≡ ok (pop_stack v, last', reg''))

abbrev pub BuiltinCalls : Program → CallRelation
BuiltinCalls p h vs v =
    (b : BuiltinStack) × Creates p h vs (builtin_stack b) × (b.current_fn b.args ≡ ok v)

-- The calls that return, nested so deep at most: a builtin, or compiled code whose own calls are
-- nested one less deep, whatever the return register holds when it is called.
abbrev pub Calls : Target → Program → ℕ → CallRelation
Calls t p zero h vs v = BuiltinCalls p h vs v
Calls t p (suc n) h vs v =
    BuiltinCalls p h vs v
    ⊎ ((fr : ByteCodeStack) × Creates p h vs (byte_code_stack fr)
        × ((reg : Option Value) → Answers t (Calls t p n) fr reg v))

BuiltinCalls-IsKept : (t : Target) (p : Program) → IsKept t p (BuiltinCalls p)
BuiltinCalls-IsKept t p h vs v (b, c, e) = (
  builtin_stack b,
  c,
  λ caller callers reg. Steps.next refl (step-builtin t p b caller callers reg v e) Steps.here,
)

pub Calls-IsKept : (t : Target) (p : Program) (n : ℕ) → IsKept t p (Calls t p n)
Calls-IsKept t p zero h vs v r = BuiltinCalls-IsKept t p h vs v r
Calls-IsKept t p (suc n) h vs v (inl r) = BuiltinCalls-IsKept t p h vs v r
Calls-IsKept t p (suc n) h vs v (inr (fr, c, answers)) = (
  byte_code_stack fr,
  c,
  λ caller callers reg.
      let (last, reg', last', reg'', m, e) = answers reg in
      Steps-trans (Moves-Steps p (caller ∷ callers) (Calls-IsKept t p n) m)
        (Steps.next refl (step-return t p last last' callers reg' reg'' caller v e) Steps.here),
)

execute-suc :
    (fuel : ℕ) (t : Target) (x y : Executor)
    → x.finished ≡ false
    → step t x ≡ ok y
    → execute (suc fuel) t x ≡ execute fuel t y
unfolding execute
execute-suc fuel t x y a e = simp (execute, a, e)

execute-Steps :
    {t : Target} {x y : Executor} {r : Outcome Error Value} (fuel : ℕ)
    → Steps t x y
    → execute fuel t y ≡ some r
    → (fuel' : ℕ) × (execute fuel' t x ≡ some r)
execute-Steps fuel Steps.here h = (fuel, h)
execute-Steps {t} fuel (Steps.next {x = x} {y = y} a e m) h =
    let (fuel', h') = execute-Steps fuel m h in (suc fuel', execute-suc fuel' t x y a e ∙ h')

-- The first frame's return ends the execution with the value.
step-last :
    (t : Target) (p : Program) (fr fr' : ByteCodeStack) (reg reg' : Option Value) (v : Value)
    → frame_step t fr reg ≡ ok (pop_stack v, fr', reg')
    → step t (running p (byte_code_stack fr) [] reg)
      ≡ ok (popped (running p (byte_code_stack fr') [] reg') [] v)
unfolding step top_step act
step-last t p fr fr' reg reg' v e = rw e

execute-last :
    (t : Target) (p : Program) (fr fr' : ByteCodeStack) (reg reg' : Option Value) (v : Value)
    → frame_step t fr reg ≡ ok (pop_stack v, fr', reg')
    → execute 1 t (running p (byte_code_stack fr) [] reg) ≡ some (ok v)
execute-last t p fr fr' reg reg' v e =
    execute-suc 0 t _ _ refl (step-last t p fr fr' reg reg' v e) ∙ unfold execute in refl

pub execute-Answers :
    (t : Target) (p : Program) (n : ℕ) (fr : ByteCodeStack) (reg : Option Value) (v : Value)
    → Answers t (Calls t p n) fr reg v
    → (fuel : ℕ) × (execute fuel t (running p (byte_code_stack fr) [] reg) ≡ some (ok v))
execute-Answers t p n fr reg v (last, reg', last', reg'', m, e) =
    execute-Steps 1 (Moves-Steps p [] (Calls-IsKept t p n) m)
      (execute-last t p last last' reg' reg'' v e)
