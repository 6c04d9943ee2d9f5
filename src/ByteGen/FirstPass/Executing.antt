-- ===== src/ByteGen/FirstPass/Executing.antt =====
-- Structured code as the executor runs it, through the three passes
-- (smpl/src/code_gen/byte_gen/first_pass.rs, second_pass.rs, third_pass.rs).
use smpl_mirror.Common.{
  ℕ, List, [], ◌++◌, ◌<◌, ◌^◌, ◌≡◌, ◌∙◌, sym, ap, none, some, Bool, true, false, ok, length,
  lookup_id,
}
use smpl_mirror.Common.Options.{some_inj}
use smpl_mirror.ByteCode.{Arg}
use smpl_mirror.TypedAst.{Expr}
use smpl_mirror.Machine.Value.{FnHandle, Value}
use smpl_mirror.Machine.Arith.{Target}
use smpl_mirror.Machine.Executor.{ByteCodeStack, byte_code_stack, execute}
use smpl_mirror.ByteGen.ByteExpr.{TypingContext}
use smpl_mirror.ByteGen.Partial.{PartialInstruction}
use smpl_mirror.ByteGen.SecondPass.{SecondPass}
use smpl_mirror.ByteGen.Compile.{ByteCodeFunction, compile_passes}
use smpl_mirror.ByteGen.Meaning.{State, Ending, finished, returned, Tests, CallRelation, Run}
use smpl_mirror.ByteGen.Correct.Program.{Program, running, Creates, Calls}
use smpl_mirror.ByteGen.Correct.Execute.{execute-compiled}
use smpl_mirror.ByteGen.FirstPass.{value_of}
use smpl_mirror.ByteGen.FirstPass.Tree.{Tree, first_pass, Builds, Ready}
use smpl_mirror.ByteGen.FirstPass.Builds.{first_pass-Builds}
use smpl_mirror.ByteGen.FirstPass.Doing.{Line, Decides, Does}

module _ (t : Target) (Returns : CallRelation) where
  module _ (sp : SecondPass) where
    Line-Run :
        {code rest : List PartialInstruction} {s s' : State} {out : Ending}
        → Line t Returns code s (finished s')
        → Run t Returns sp rest s' out
        → Run t Returns sp (code ++ rest) s out
    Line-Run Line.done r = r
    Line-Run (Line.plain x l) r = Run.plain x (Line-Run l r)
    Line-Run (Line.call x y l) r = Run.call x y (Line-Run l r)

    Line-Run_return :
        {code : List PartialInstruction} (rest : List PartialInstruction) {s : State} {v : Value}
        → Line t Returns code s (returned v)
        → Run t Returns sp (code ++ rest) s (returned v)
    Line-Run_return rest (Line.plain x l) = Run.plain x (Line-Run_return rest l)
    Line-Run_return rest (Line.call x y l) = Run.call x y (Line-Run_return rest l)
    Line-Run_return rest (Line.return x) = Run.return x

    Line-Run_all :
        {code : List PartialInstruction} {s s' : State}
        → Line t Returns code s (finished s')
        → Run t Returns sp code s (finished s')
    Line-Run_all Line.done = Run.done
    Line-Run_all (Line.plain x l) = Run.plain x (Line-Run_all l)
    Line-Run_all (Line.call x y l) = Run.call x y (Line-Run_all l)

    Decides-Run :
        (ty : TypingContext) {condition : Expr} {code : List PartialInstruction} {result : Arg}
        {s s' : State} {b : Bool}
        → value_of ty condition ≡ some (code, result)
        → Decides t Returns ty condition s b s'
        → Run t Returns sp code s (finished s') × Tests s' result b
    Decides-Run ty p d =
        let same = some_inj (sym d.translates ∙ p) in
        (rw (← ap (λ r. r.0) same) (Line-Run_all d.computes), rw (← ap (λ r. r.1) same) d.tests)

    Does-Run :
        (ty : TypingContext) {tree : Tree} {items : List PartialInstruction} {s : State}
        {out : Ending}
        → Builds ty sp tree items
        → Does t Returns ty tree s out
        → Run t Returns sp items s out
    Does-Run ty Builds.done Does.done = Run.done
    Does-Run ty (Builds.simple p r) (Does.simple p' l d) =
        Line-Run (rw (← some_inj (sym p' ∙ p)) l) (Does-Run ty r d)
    Does-Run ty (Builds.simple {code = code} {items = items} p r) (Does.simple_return p' l) =
        Line-Run_return {code = code} items (rw (← some_inj (sym p' ∙ p)) l)
    Does-Run ty (Builds.loop p h b r) (Does.loop_exit c d) =
        let (run, test) = Decides-Run ty p c in Run.loop_exit h run test (Does-Run ty r d)
    Does-Run ty (Builds.loop p h b r) (Does.loop_again c d d') =
        let (run, test) = Decides-Run ty p c in
        Run.loop_again h run test (Does-Run ty b d) (Does-Run ty (Builds.loop p h b r) d')
    Does-Run ty (Builds.loop p h b r) (Does.loop_return c d) =
        let (run, test) = Decides-Run ty p c in Run.loop_return h run test (Does-Run ty b d)
    Does-Run ty (Builds.branch p h y n r) (Does.branch true c d d') =
        let (run, test) = Decides-Run ty p c in
        Run.branch true h run test (Does-Run ty y d) (Does-Run ty r d')
    Does-Run ty (Builds.branch p h y n r) (Does.branch false c d d') =
        let (run, test) = Decides-Run ty p c in
        Run.branch false h run test (Does-Run ty n d) (Does-Run ty r d')
    Does-Run ty (Builds.branch p h y n r) (Does.branch_return true c d) =
        let (run, test) = Decides-Run ty p c in Run.branch_return true h run test (Does-Run ty y d)
    Does-Run ty (Builds.branch p h y n r) (Does.branch_return false c d) =
        let (run, test) = Decides-Run ty p c in Run.branch_return false h run test (Does-Run ty n d)

-- If structured code whose first pass left the frames `sp`, compiled to a function of fewer than
-- 2^63 instructions and started in the new frame of a call, returns a value, with its own calls
-- answered by builtins and compiled functions nested `n` deep, then the executor, started on that
-- call, finishes with that value after some number of steps.
pub execute-Does :
    (t : Target) (p : Program) (n fuel : ℕ) (ty : TypingContext) {lo hi : ℕ} {tree : Tree}
    (sp : SecondPass) (f : ByteCodeFunction) (h : FnHandle) (args : List Value) (fr : ByteCodeStack)
    (v : Value)
    → Ready ty lo hi tree
    → first_pass ty tree ≡ some sp
    → compile_passes fuel sp ≡ ok f
    → lookup_id h.fn_id p.compiled ≡ some f.instructions
    → length f.instructions < 2 ^ 63
    → Creates p h args (byte_code_stack fr)
    → Does t (Calls t p n) ty tree (fr.env, none) (returned v)
    → (steps : ℕ) × (execute steps t (running p (byte_code_stack fr) [] none) ≡ some (ok v))
execute-Does t p n fuel ty {tree = tree} sp f h args fr v ready passed compiled known small frame
      does =
    let (sp', passed', builds') = first_pass-Builds ty ready in
    let builds : Builds ty sp tree sp.main_body = rw (← some_inj (sym passed' ∙ passed)) builds' in
    execute-compiled t p n fuel sp f h args fr v compiled known small frame
      (Does-Run t (Calls t p n) sp ty builds does)
