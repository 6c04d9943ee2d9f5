-- ===== src/Drawing/Compiled.antt =====
-- From the body of a function to the passes of the byte code generator: `generate` of
-- smpl/src/analysis/control_flow.rs, then compile_to_byte_code of
-- smpl/src/code_gen/byte_gen/mod.rs.
mod Tests
use mathlib.Core.Path.{subst}
use smpl_mirror.Common.{ℕ, suc, ◌≤◌, ◌≡◌, refl, sym, ap, ◌∙◌, [], none, some, Bool, Outcome, ok}
use smpl_mirror.Common.Options.{some_inj}
use smpl_mirror.Ast.{Block}
use smpl_mirror.ExprFlow
use smpl_mirror.ExprFlow.Steps.{Good}
use smpl_mirror.ControlFlow.{Cfg}
use smpl_mirror.ControlFlow.Petgraph.{Petgraph}
use smpl_mirror.ControlFlow.Generate.{ControlFlowError, generate}
use smpl_mirror.ControlFlow.Checked.{Checked}
use smpl_mirror.ByteGen.ByteExpr.{TypingContext}
use smpl_mirror.ByteGen.SecondPass.{SecondPass}
use smpl_mirror.ByteGen.Compile.{compile_passes}
use smpl_mirror.ByteGen.FirstPass.Tree.{Tree, first_pass}
use smpl_mirror.ByteGen.FirstPass.Whole.{marks}
use smpl_mirror.ByteGen.FirstPass.Entry.{Holds, compile_to_byte_code, compile-first_pass}
use smpl_mirror.Drawing.{graft, draw, IsPlain}
use smpl_mirror.Drawing.Entry.{closing, Generated, generate-Generated}

module _ (body : Block) (returns_unit : Bool) (flow after : ExprFlow.State) (ty : TypingContext)
    (fuel : ℕ) (tree : Tree) (sp : SecondPass)
    (draws : draw none body (record flow { anonymous_fns = [] }) ≡ some (tree, after))
    (passed : first_pass ty (graft tree (closing returns_unit)) ≡ some sp)
    (few : marks (graft tree (closing returns_unit)) ≤ fuel) where
  compile-Generated :
      {r : Outcome ControlFlowError (Cfg × ExprFlow.State)}
      → Checked (Generated body returns_unit flow) r none
      → (g : Cfg) × (r ≡ ok (g, after))
        × (compile_to_byte_code (suc fuel) ty g ≡ compile_passes (suc fuel) sp)
  compile-Generated (Checked.runs {a = g} {s = s} x) =
      let same : (x.tree, s) ≡ (tree, after) = some_inj (sym x.draws ∙ draws) in
      let held : Holds g (graft tree (closing returns_unit)) =
        subst (λ t. Holds g (graft t (closing returns_unit))) (ap (λ p. p.0) same) x.holds in
      (g, ap (λ p. ok (g, p.1)) same, compile-first_pass g ty held fuel sp few passed)

  -- For a body with no `break`, and with `continue` in loops only, and data whose counters are
  -- ahead of every id in use: `generate` returns a graph, and the byte code generator makes of
  -- that graph, with more fuel than the code has loops and branches, what its second and third
  -- pass make of the frames that the first pass leaves on the drawn body, if the first pass
  -- succeeds on it.
  pub compile-generate :
      (P : Petgraph) (good_lo : ℕ)
      → IsPlain none body
      → Good good_lo flow
      → (g : Cfg) × (generate P body returns_unit flow ≡ ok (g, after))
        × (compile_to_byte_code (suc fuel) ty g ≡ compile_passes (suc fuel) sp)
  compile-generate P good_lo plain good =
      compile-Generated (generate-Generated P good_lo body returns_unit flow plain good)
