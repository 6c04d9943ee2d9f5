-- ===== src/ByteGen/Correct/Execute.antt =====
-- Compiled functions under the executor.
use mathlib.Core.Path.{subst}
use smpl_mirror.Common.{
  ℕ, suc, ◌<◌, ◌^◌, ◌≡◌, sym, inr, List, [], Option, none, some, ok, arith, length, lookup_id,
}
use smpl_mirror.Machine.Value.{FnHandle, Value}
use smpl_mirror.ByteCode.{Instruction}
use smpl_mirror.Machine.Arith.{Target}
use smpl_mirror.Machine.Executor.{
  ByteCodeStack, byte_code_stack, create_stack_info, execute, new_builtin_stack,
  new_byte_code_stack,
}
use smpl_mirror.ByteGen.SecondPass.{SecondPass}
use smpl_mirror.ByteGen.Compile.{ByteCodeFunction, compile_passes}
use smpl_mirror.ByteGen.Meaning.{returned, Run, at}
use smpl_mirror.ByteGen.Correct.Whole.{compile-Reaches}
use smpl_mirror.ByteGen.Correct.Program.{Program, running, Creates, Answers, Calls, execute-Answers}

-- A new frame of compiled code stands at the first instruction of its function.
Creates-start :
    (p : Program) (h : FnHandle) (vs : List Value) (fr : ByteCodeStack) (is : List Instruction)
    → Creates p h vs (byte_code_stack fr)
    → lookup_id h.fn_id p.compiled ≡ some is
    → (fr.current_fn ≡ is) × (fr.instruction_pointer ≡ 0)
unfolding create_stack_info new_builtin_stack new_byte_code_stack
Creates-start p h vs fr is c e = ground arith

module _ (t : Target) (p : Program) (n fuel : ℕ) (sp : SecondPass) (f : ByteCodeFunction)
    (h : FnHandle) (args : List Value) (fr : ByteCodeStack) (v : Value)
    (compiled : compile_passes fuel sp ≡ ok f)
    (known : lookup_id h.fn_id p.compiled ≡ some f.instructions)
    (small : length f.instructions < 2 ^ 63) (frame : Creates p h args (byte_code_stack fr)) where
  Run-Answers :
      (reg : Option Value)
      → Run t (Calls t p n) sp sp.main_body (fr.env, reg) (returned v)
      → Answers t (Calls t p n) fr reg v
  Run-Answers reg run =
      let (same, start) = Creates-start p h args fr f.instructions frame known in
      let at_start : at fr 0 (fr.env, reg) ≡ fr =
        λ i. record fr { instruction_pointer = sym start i } in
      subst (λ g. Answers t (Calls t p n) g reg v) at_start
        (compile-Reaches t (Calls t p n) fuel sp f fr (fr.env, reg) (returned v) compiled same small
          run)

  -- If the tree of a compiled function of fewer than 2^63 instructions, started in the new frame of a call, returns a value, with
  -- its own calls answered by builtins and compiled functions nested `n` deep, then the executor,
  -- started on that call, finishes with that value after some number of steps.
  pub execute-compiled :
      Run t (Calls t p n) sp sp.main_body (fr.env, none) (returned v)
      → (steps : ℕ) × (execute steps t (running p (byte_code_stack fr) [] none) ≡ some (ok v))
  execute-compiled run = execute-Answers t p n fr none v (Run-Answers none run)

  -- And such a function may itself be called, one level further out.
  pub compiled-Calls :
      ((reg : Option Value) → Run t (Calls t p n) sp sp.main_body (fr.env, reg) (returned v))
      → Calls t p (suc n) h args v
  compiled-Calls runs = inr (fr, frame, λ reg. Run-Answers reg (runs reg))
