-- ===== src/ExprFlow/Tests.antt =====
-- Flattened expressions, and the theorems at them.
use smpl_mirror.Common.{◌≡◌, refl, [], ◌∷◌, some, none, arith}
use smpl_mirror.Common.Int.{pos}
use smpl_mirror.Ast
use smpl_mirror.TypedAst.{Value, tmp, no_tmps, expr_of, lookup_tmp, map_tmp, set_tmp}
use smpl_mirror.TypedAst
use smpl_mirror.ExprFlow.{State, flatten, flatten_expr, new_tmp, buffered, in_new_scope, append_fns}
use smpl_mirror.ExprFlow.Steps.{Good, Done, IsFlat}
use smpl_mirror.ExprFlow.Total.{flatten-Done}

-- 1 + f(x)
abbrev e : Ast.Expr
e = Ast.bin Ast.add (Ast.literal (Ast.int (pos 1))) (
    Ast.fn_call
      (Ast.call_args (Ast.nill_arity ("f" ∷ [])) (Ast.and_expr (Ast.binding "x") Ast.no_exprs)))

abbrev start : State
start = record { next_id = 4; next_fn_id = 0; anonymous_fns = []; scope = TypedAst.new }

start-Good : Good 0 start
unfolding lookup_tmp
start-Good = record { below = λ id le. refl; mapped = tt; fns = omega arith }

flatten-Done_example : Done 0 start (flatten e) (λ flat s'. IsFlat flat)
flatten-Done_example = flatten-Done 0 e start start-Good

-- Function and argument come before the call, and operands before the operation.
e_flattened :
    flatten e start
    ≡ some (
      expr_of
          (tmp 8 (Value.bin_expr Ast.add 4 7) (
            tmp 7 (Value.fn_call 5 (some (6 ∷ []))) (
              tmp 6 (Value.binding "x" none) (
                tmp 5 (Value.binding "f" none) (tmp 4 (Value.literal (Ast.int (pos 1))) no_tmps)))))
          (4 ∷ 5 ∷ 6 ∷ 7 ∷ 8 ∷ []),
      record start { next_id = 9 },
    )
unfolding flatten flatten_expr new_tmp buffered in_new_scope append_fns lookup_tmp map_tmp
e_flattened = refl
