-- ===== src/Drawing/Compiled/Tests.antt =====
-- From a body to its byte code frames, and the theorem at it.
use smpl_mirror.Common.{ℕ, ◌≡◌, refl, [], ◌∷◌, none, some, true, ok, arith, lookup_id, insert_id}
use smpl_mirror.Common.Int.{pos}
use smpl_mirror.ByteCode.{Arg, Location, Instruction}
use smpl_mirror.Names.{tmp_id, decimal_fuel}
use smpl_mirror.Ast
use smpl_mirror.Ast.{Block, no_stmts, and_stmt}
use smpl_mirror.TypedAst.{Expr, last_of, expr_of, tmp, no_tmps}
use smpl_mirror.TypedAst
use smpl_mirror.ExprFlow
use smpl_mirror.ExprFlow.Steps.{Good}
use smpl_mirror.ControlFlow.{Cfg}
use smpl_mirror.ControlFlow.Listed.{listed}
use smpl_mirror.ControlFlow.Generate.{generate}
use smpl_mirror.ByteGen.ByteExpr.{translate_expr, collect}
use smpl_mirror.ByteGen.Partial.{PartialInstruction}
use smpl_mirror.ByteGen.SecondPass.{SecondPass}
use smpl_mirror.ByteGen.Compile.{compile_passes}
use smpl_mirror.ByteGen.FirstPass.{
  value_of, on_start, on_end, loop_head, loop_foot, ret, extend_current_frame,
}
use smpl_mirror.ByteGen.FirstPass
use smpl_mirror.ByteGen.FirstPass.Tree.{Tree, perform, first_pass, expr_stmt}
use smpl_mirror.ByteGen.FirstPass.Whole.{marks}
use smpl_mirror.ByteGen.FirstPass.Entry.{compile_to_byte_code}
use smpl_mirror.Drawing.{graft, draw, IsPlain, one}
use smpl_mirror.Drawing.Entry.{closing}
use smpl_mirror.Drawing.Compiled.{compile-generate}

-- while (true) { 1; }
abbrev body : Block
body =
    and_stmt
      (Ast.while_stmt (Ast.literal (Ast.bool true))
        (and_stmt (Ast.expr (Ast.literal (Ast.int (pos 1)))) no_stmts))
      no_stmts

body-IsPlain : IsPlain none body
unfolding IsPlain
body-IsPlain = ((λ id. (tt, tt)), tt)

abbrev flow : ExprFlow.State
flow = record { next_id = 0; next_fn_id = 0; anonymous_fns = []; scope = TypedAst.new }

flow-Good : Good 0 flow
flow-Good = record {
  below = λ id le. unfold TypedAst.lookup_tmp in refl;
  mapped = tt;
  fns = omega arith;
}

abbrev lit : ℕ → Ast.Literal → Expr
lit id l = expr_of (tmp id (TypedAst.literal l) no_tmps) (id ∷ [])

abbrev tree : Tree
tree = Tree.loop 0 (lit 1 (Ast.bool true)) (one (expr_stmt (lit 2 (Ast.int (pos 1))))) Tree.done

body_drawn : draw none body flow ≡ some (tree, record flow { next_id = 3 })
unfolding draw graft ExprFlow.flatten ExprFlow.flatten_expr ExprFlow.new_tmp ExprFlow.buffered
    ExprFlow.in_new_scope ExprFlow.append_fns TypedAst.lookup_tmp TypedAst.map_tmp TypedAst.set_tmp
body_drawn = refl

abbrev instr : Instruction → PartialInstruction
instr i = PartialInstruction.instruction i

abbrev frames : SecondPass
frames = record {
  main_body = PartialInstruction.loop_mark 0 ∷ instr (Instruction.return none) ∷ [];
  loops =
      (
        0,
        record {
          result_location = some (Arg.location (Location.tmp "_tmp1"));
          condition = some (instr (Instruction.store (Location.tmp "_tmp1") (Arg.bool true)) ∷ []);
          body = some (instr (Instruction.store (Location.tmp "_tmp2") (Arg.int (pos 1))) ∷ []);
        },
      )
      ∷ [];
  branches = [];
}

tree_passes : first_pass [] (graft tree (closing true)) ≡ some frames
unfolding graft first_pass perform on_start on_end loop_head loop_foot FirstPass.expr ret
    extend_current_frame value_of translate_expr collect last_of lookup_id tmp_id decimal_fuel
    insert_id
tree_passes = refl

compile-generate_example :
    (g : Cfg) × (generate listed body true flow ≡ ok (g, record flow { next_id = 3 }))
    × (compile_to_byte_code 2 [] g ≡ compile_passes 2 frames)
compile-generate_example =
    compile-generate body true flow (record flow { next_id = 3 }) [] 1 tree frames body_drawn
      tree_passes (unfold marks graft in omega arith) listed 0 body-IsPlain flow-Good
