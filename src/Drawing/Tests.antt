-- ===== src/Drawing/Tests.antt =====
-- The block of a function, and the theorems at it.
use smpl_mirror.Common.{none, arith, refl}
use smpl_mirror.Ast
use smpl_mirror.Ast.{Block, no_stmts, and_stmt}
use smpl_mirror.Common.{true, false, []}
use smpl_mirror.Common.Int.{pos}
use smpl_mirror.TypedAst
use smpl_mirror.ExprFlow
use smpl_mirror.ExprFlow.Steps.{Good}
use smpl_mirror.ControlFlow.{Node}
use smpl_mirror.ControlFlow.Petgraph.{Petgraph}
use smpl_mirror.ControlFlow.Listed.{listed}
use smpl_mirror.ControlFlow.Generate.{Gen, begin, generate, generate_scoped_block}
use smpl_mirror.ControlFlow.Checked.{Checked}
use smpl_mirror.Drawing.{IsPlain}
use smpl_mirror.Drawing.Steps.{BlockDrawn}
use smpl_mirror.Drawing.Entry.{Generated, generate-Generated}
use smpl_mirror.Drawing.Blocks.{EmptyIsBare, generate_scoped_block-Drawn}

-- while (true) { if (false) { continue; } else { 1; } } return;
abbrev body : Block
body =
    and_stmt
      (Ast.while_stmt (Ast.literal (Ast.bool true)) (
        and_stmt
          (Ast.if_stmt
            (Ast.branch_of (Ast.literal (Ast.bool false)) (and_stmt Ast.continue_stmt no_stmts))
            Ast.no_branches
            (Ast.default_block (and_stmt (Ast.expr (Ast.literal (Ast.int (pos 1)))) no_stmts)))
          no_stmts))
      (and_stmt Ast.return_stmt no_stmts)

body-IsPlain : IsPlain none body
unfolding IsPlain
body-IsPlain = ((λ id. (((tt, tt), tt, (tt, tt)), tt)), (tt, tt))

abbrev flow : ExprFlow.State
flow = record { next_id = 0; next_fn_id = 0; anonymous_fns = []; scope = TypedAst.new }

flow-Good : Good 0 flow
flow-Good = record {
  below = λ id le. unfold TypedAst.lookup_tmp in refl;
  mapped = tt;
  fns = omega arith;
}

abbrev begun : Gen (Petgraph.Graph listed)
begun = record { graph = listed.add_node Node.start listed.new; flow = flow }

generate_scoped_block-Drawn_example :
    Checked
      (λ b s'. BlockDrawn listed 0 none body begun b s' × EmptyIsBare body b begun s')
      (generate_scoped_block listed body none begin begun)
      none
generate_scoped_block-Drawn_example =
    generate_scoped_block-Drawn listed 0 body none begun
      (omega (arith, listed.node_count-add_node Node.start listed.new)) body-IsPlain flow-Good

generate-Generated_example :
    Checked (Generated body true flow) (generate listed body true flow) none
generate-Generated_example = generate-Generated listed 0 body true flow body-IsPlain flow-Good
