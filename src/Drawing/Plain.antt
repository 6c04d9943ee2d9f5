-- ===== src/Drawing/Plain.antt =====
-- The statements without blocks, and the end of a block, in smpl/src/analysis/control_flow.rs.
use smpl_mirror.Common.{ℕ, String, ◌+◌, Option, none, some, ◌≡◌, refl, ◌≤◌, arith}
use smpl_mirror.Ast
use smpl_mirror.Ast.{
  Block, Stmt, Branch, Branches, OptBlock, no_stmts, and_stmt, branch_of, no_branches, and_branch,
  no_block, default_block,
}
use smpl_mirror.ExprFlow
use smpl_mirror.ExprFlow.{M}
use smpl_mirror.ExprFlow.Steps.{Good}
use smpl_mirror.ExprFlow.Total.{flatten-Done, flatten_path_lem}
use smpl_mirror.ControlFlow.{Node, BlockNode}
use smpl_mirror.ControlFlow.Petgraph.{Petgraph}
use smpl_mirror.ControlFlow.Generate.{
  BranchData, Cursor, InternalLoopData, Gen, flowing, generate_stmt, generate_scoped_block,
}
use smpl_mirror.ControlFlow.Checked.{Checked, weaken-Checked}
use smpl_mirror.ByteGen.FirstPass.Tree.{Tree, decl, assign, expr_stmt, return_stmt, continue_stmt}
use smpl_mirror.ByteGen.FirstPass.Riding.{Laid}
use smpl_mirror.Drawing.{graft, graft-done, one, draw, draw_stmt}
use smpl_mirror.Drawing.Graphs.{Grows}
use smpl_mirror.Drawing.Fragment.{Part, widen-Part}
use smpl_mirror.Drawing.Steps.{flow-then, new_id-Good}
use smpl_mirror.Drawing.Cursors.{CursorDrawn, append_node-Drawn, push-Drawn}
use smpl_mirror.Drawing.Statements.{StmtDrawn, flush-then}

module _ (P : Petgraph) (good_lo : ℕ) where
  module _ (first : ℕ) (g₀ : P.Graph) where
    abbrev pub Drawn : Tree → Cursor → Gen P.Graph → Type 0
    Drawn t c s = CursorDrawn P good_lo first g₀ t c s

    -- The rest of the block is built after the tree.
    pub record RestDrawn (in_loop : Option ℕ) (block : Block) (t : Tree) (s : Gen P.Graph)
        (b : BranchData) (s' : Gen P.Graph) : Type 0 where
      pub tree : Tree
      pub draws : draw in_loop block s.flow ≡ some (tree, s'.flow)
      pub part :
          Part P (P.node_count g₀) first s'.graph s'.flow.next_id b.head b.foot (graft t tree)
      pub grows : Grows P g₀ s'.graph
      pub ahead : first ≤ s'.flow.next_id
      pub good : Good good_lo s'.flow

    pub no_stmts-Drawn :
        (in_loop : Option ℕ) (loop_data : InternalLoopData) (t : Tree) (c : Cursor)
        (s : Gen P.Graph)
        → Drawn t c s
        → Checked
            (RestDrawn in_loop no_stmts t s)
            (generate_scoped_block P no_stmts loop_data c s)
            none
    unfolding generate_scoped_block draw
    no_stmts-Drawn in_loop loop_data t c s x = flush-then P good_lo first g₀ _ x (λ c₁ g x₁ empty.
        Checked.runs (record {
          tree = Tree.done;
          draws = refl;
          part = rw (graft-done t, x₁.whole, empty, graft-done x₁.built) x₁.part;
          grows = x₁.grows;
          ahead = x₁.ahead;
          good = x₁.good;
        }))

    move-Drawn :
        {t : Tree} {c : Cursor} {s : Gen P.Graph} (flow : ExprFlow.State)
        → Good good_lo flow
        → s.flow.next_id ≤ flow.next_id
        → Drawn t c s
        → Drawn t c (record { graph = s.graph; flow = flow })
    move-Drawn flow good le x = record {
      built = x.built;
      part = widen-Part P le x.part;
      whole = x.whole;
      grows = x.grows;
      ahead = omega (arith, x.ahead, le);
      good = good;
    }

    pub expr-Drawn :
        (in_loop : Option ℕ) (loop_data : InternalLoopData) (e : Ast.Expr) (t : Tree) (c : Cursor)
        (s : Gen P.Graph)
        → Drawn t c s
        → Checked
            (StmtDrawn P good_lo first g₀ in_loop (Ast.expr e) t s)
            (generate_stmt P (Ast.expr e) loop_data c s)
            none
    unfolding generate_stmt draw_stmt
    expr-Drawn in_loop loop_data e t c s x =
        let d = flatten-Done good_lo e s.flow x.good in
        flow-then _ s d (
          Checked.runs (record {
            tree = one (expr_stmt d.answer);
            draws = rw (draw_stmt, ExprFlow.◌>>=◌, d.runs) refl;
            cursor =
                push-Drawn P good_lo first g₀ (BlockNode.expr d.answer)
                  (move-Drawn d.after d.good d.ahead x);
          }))

    pub assignment-Drawn :
        (in_loop : Option ℕ) (loop_data : InternalLoopData) (path : Ast.FieldPath) (e : Ast.Expr)
        (t : Tree) (c : Cursor) (s : Gen P.Graph)
        → Drawn t c s
        → Checked
            (StmtDrawn P good_lo first g₀ in_loop (Ast.assignment path e) t s)
            (generate_stmt P (Ast.assignment path e) loop_data c s)
            none
    unfolding generate_stmt draw_stmt
    assignment-Drawn in_loop loop_data path e t c s x =
        let a = flatten_path_lem good_lo path s.flow x.good in
        let d = flatten-Done good_lo e a.after a.good in
        flow-then _ s a (
          flow-then _ (record { graph = s.graph; flow = a.after }) d
            (Checked.runs (record {
              tree = one (assign a.answer d.answer);
              draws = rw (draw_stmt, ExprFlow.◌>>=◌, a.runs, d.runs) refl;
              cursor =
                  push-Drawn P good_lo first g₀ (BlockNode.assignment a.answer d.answer)
                    (move-Drawn d.after d.good (omega (arith, a.ahead, d.ahead)) x);
            })))

    pub decl-Drawn :
        (in_loop : Option ℕ) (loop_data : InternalLoopData) (ann : Ast.OptAnnotation)
        (name : String) (e : Ast.Expr) (t : Tree) (c : Cursor) (s : Gen P.Graph)
        → Drawn t c s
        → Checked
            (StmtDrawn P good_lo first g₀ in_loop (Ast.local_var_decl ann name e) t s)
            (generate_stmt P (Ast.local_var_decl ann name e) loop_data c s)
            none
    unfolding generate_stmt draw_stmt flowing
    decl-Drawn in_loop loop_data ann name e t c s x =
        let d = flatten-Done good_lo e s.flow x.good in
        flow-then _ s d (
          Checked.runs (record {
            tree = one (decl name d.answer);
            draws = rw (draw_stmt, ExprFlow.◌>>=◌, d.runs) refl;
            cursor = push-Drawn P good_lo first g₀ (BlockNode.local_var_decl name d.answer) (
                move-Drawn (record d.after { next_id = d.after.next_id + 1 })
                  (new_id-Good d.after d.good) (omega (arith, d.ahead)) x);
          }))

    pub return-Drawn :
        (in_loop : Option ℕ) (loop_data : InternalLoopData) (t : Tree) (c : Cursor)
        (s : Gen P.Graph)
        → Drawn t c s
        → Checked
            (StmtDrawn P good_lo first g₀ in_loop Ast.return_stmt t s)
            (generate_stmt P Ast.return_stmt loop_data c s)
            none
    unfolding generate_stmt draw_stmt graft
    return-Drawn in_loop loop_data t c s x = flush-then P good_lo first g₀ _ x (λ c₁ g x₁ empty.
        weaken-Checked
          (append_node-Drawn P good_lo first g₀ (Node.return none) (one (return_stmt none)) t c₁ _
            empty (λ id. refl) (λ b G m stop k e rest is out laid. Laid.return is out laid) x₁)
          (λ c₂ s₂ (x₂, _, same). record {
            tree = one (return_stmt none);
            draws = rw same refl;
            cursor = x₂;
          }))

    pub return_expr-Drawn :
        (in_loop : Option ℕ) (loop_data : InternalLoopData) (e : Ast.Expr) (t : Tree) (c : Cursor)
        (s : Gen P.Graph)
        → Drawn t c s
        → Checked
            (StmtDrawn P good_lo first g₀ in_loop (Ast.return_expr e) t s)
            (generate_stmt P (Ast.return_expr e) loop_data c s)
            none
    unfolding generate_stmt draw_stmt graft
    return_expr-Drawn in_loop loop_data e t c s x =
        flush-then P good_lo first g₀ _ x (λ c₁ g x₁ empty.
          let d = flatten-Done good_lo e s.flow x₁.good in
          flow-then _ (record { graph = g; flow = s.flow }) d
            (weaken-Checked
              (append_node-Drawn P good_lo first g₀ (Node.return (some d.answer))
                (one (return_stmt (some d.answer))) t c₁ _ empty (λ id. refl)
                (λ b G m stop k e rest is out laid. Laid.return is out laid)
                (move-Drawn d.after d.good d.ahead x₁))
              (λ c₂ s₂ (x₂, _, same). record {
                tree = one (return_stmt (some d.answer));
                draws = rw (draw_stmt, ExprFlow.◌>>=◌, d.runs, same) refl;
                cursor = x₂;
              })))

    pub continue-Drawn :
        (head foot id : ℕ) (t : Tree) (c : Cursor) (s : Gen P.Graph)
        → Drawn t c s
        → Checked
            (StmtDrawn P good_lo first g₀ (some id) Ast.continue_stmt t s)
            (generate_stmt P Ast.continue_stmt (some (head, foot, id)) c s)
            none
    unfolding generate_stmt draw_stmt graft
    continue-Drawn head foot id t c s x = flush-then P good_lo first g₀ _ x (λ c₁ g x₁ empty.
        weaken-Checked
          (append_node-Drawn P good_lo first g₀ (Node.continue id) (one (continue_stmt id)) t c₁ _
            empty (λ id. refl) (λ b G m stop k e rest is out laid. Laid.continue is out laid) x₁)
          (λ c₂ s₂ (x₂, _, same). record {
            tree = one (continue_stmt id);
            draws = rw same refl;
            cursor = x₂;
          }))
