-- ===== src/ControlFlow/Tests.antt =====
-- The graph of a function, and the theorems at it.
use smpl_mirror.Common.{◌≡◌, refl, [], true, false, err, arith}
use smpl_mirror.Common.Int.{pos}
use smpl_mirror.Ast
use smpl_mirror.Ast.{Block, Stmt, no_stmts, and_stmt}
use smpl_mirror.TypedAst
use smpl_mirror.ExprFlow
use smpl_mirror.ExprFlow.Steps.{Good}
use smpl_mirror.ControlFlow.Generate.{
  bad_break, generate, generate_body, generate_scoped_block, add_node, add_edge, link, append_node,
  append_node_index, flush, close_loop, open_loop, flowing,
}
use smpl_mirror.ControlFlow.Checked.{Checked, first_error, generate-Checked}
use smpl_mirror.ControlFlow.Listed.{listed}

-- while (true) { if (false) { continue; } else { 1; } }
abbrev body : Block
body =
    and_stmt
      (Ast.while_stmt (Ast.literal (Ast.bool true)) (
        and_stmt
          (Ast.if_stmt
            (Ast.branch_of (Ast.literal (Ast.bool false)) (and_stmt Ast.continue_stmt no_stmts))
            Ast.no_branches
            (Ast.default_block (and_stmt (Ast.expr (Ast.literal (Ast.int (pos 1)))) no_stmts)))
          no_stmts))
      no_stmts

abbrev flow : ExprFlow.State
flow = record { next_id = 0; next_fn_id = 0; anonymous_fns = []; scope = TypedAst.new }

flow-Good : Good 0 flow
flow-Good = record {
  below = λ id le. unfold TypedAst.lookup_tmp in refl;
  mapped = tt;
  fns = omega arith;
}

-- And a `break` that is in no loop, after it.
abbrev bad_body : Block
bad_body =
    and_stmt (Ast.while_stmt (Ast.literal (Ast.bool true)) (and_stmt Ast.break_stmt no_stmts))
      (and_stmt Ast.break_stmt no_stmts)

generate-Checked_example :
    Checked (λ g after. Good 0 after) (generate listed body true flow) (first_error false body)
generate-Checked_example = generate-Checked listed 0 body true flow flow-Good

bad_generated : generate listed bad_body true flow ≡ err bad_break
unfolding generate generate_body generate_scoped_block add_node add_edge link append_node
    append_node_index flush close_loop open_loop flowing ExprFlow.flatten ExprFlow.flatten_expr
    ExprFlow.new_tmp ExprFlow.buffered ExprFlow.in_new_scope ExprFlow.append_fns TypedAst.lookup_tmp
    TypedAst.map_tmp TypedAst.set_tmp listed
bad_generated = refl
