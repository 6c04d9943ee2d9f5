-- ===== src/Drawing/Blocks.antt =====
-- Whole blocks in smpl/src/analysis/control_flow.rs.
use smpl_mirror.Common.{ℕ, Option, none, some, refl, ◌≡◌, ok, ◌<◌, arith}
use smpl_mirror.Ast
use smpl_mirror.Ast.{
  Block, Stmt, Branch, Branches, OptBlock, no_stmts, and_stmt, branch_of, no_branches, and_branch,
  no_block, default_block,
}
use smpl_mirror.ExprFlow
use smpl_mirror.ExprFlow.{M}
use smpl_mirror.ExprFlow.Steps.{Good}
use smpl_mirror.ControlFlow.Petgraph.{Petgraph}
use smpl_mirror.ControlFlow.Generate.{
  BranchData, Cursor, InternalLoopData, begin, Gen, GenM, flush, generate_stmt,
  generate_scoped_block, generate_conditional, stack_branches, stack_default,
}
use smpl_mirror.ControlFlow.Checked.{Checked, only-Checked, weaken-Checked}
use smpl_mirror.ByteGen.FirstPass.Tree.{Tree}
use smpl_mirror.Drawing.{
  graft, graft_assoc, draw, draw_others, draw_default, IsPlain, IsPlainStmt, IsPlainBranch,
  ArePlain, IsPlainDefault,
}
use smpl_mirror.Drawing.Graphs.{Spans-refl}
use smpl_mirror.Drawing.Fragment.{nothing}
use smpl_mirror.Drawing.Steps.{BlockDrawn, BranchDrawn, conditional-Drawn}
use smpl_mirror.Drawing.Stacking.{Closes, no_default-Stacked, default-Stacked, and_branch-Closes}
use smpl_mirror.Drawing.Cursors.{CursorDrawn}
use smpl_mirror.Drawing.Plain.{
  RestDrawn, no_stmts-Drawn, expr-Drawn, assignment-Drawn, decl-Drawn, return-Drawn,
  return_expr-Drawn, continue-Drawn,
}
use smpl_mirror.Drawing.Statements.{StmtDrawn, while-Drawn, if-Drawn}

abbrev pub id_of : InternalLoopData → Option ℕ
id_of none = none
id_of (some (head, foot, id)) = some id

module _ (P : Petgraph) (good_lo : ℕ) where
  -- A block from its start.
  begun-Drawn :
      {in_loop : Option ℕ} {block : Block} {s : Gen P.Graph} (loop_data : InternalLoopData)
      → Checked
          (RestDrawn P good_lo s.flow.next_id s.graph in_loop block Tree.done s)
          (generate_scoped_block P block loop_data begin s)
          none
      → Checked
          (BlockDrawn P good_lo in_loop block s)
          (generate_scoped_block P block loop_data begin s)
          none
  unfolding graft
  begun-Drawn loop_data built = weaken-Checked built (λ b s' d. record {
    tree = d.tree;
    draws = d.draws;
    part = d.part;
    grows = d.grows;
    good = d.good;
    ahead = d.ahead;
  })

  begin-CursorDrawn :
      (s : Gen P.Graph)
      → Good good_lo s.flow
      → CursorDrawn P good_lo s.flow.next_id s.graph Tree.done begin s
  unfolding graft
  begin-CursorDrawn s good = record {
    built = Tree.done;
    part = nothing;
    whole = refl;
    grows = Spans-refl P 0 _ s.graph;
    ahead = omega arith;
    good = good;
  }

  and_stmt-Drawn :
      (first : ℕ) (g₀ : P.Graph) (in_loop : Option ℕ) (loop_data : InternalLoopData) (stmt : Stmt)
      (stmts : Block) (t : Tree) (c : Cursor) (s : Gen P.Graph)
      → Checked
          (StmtDrawn P good_lo first g₀ in_loop stmt t s)
          (generate_stmt P stmt loop_data c s)
          none
      → ((t' : Tree) (c' : Cursor) (s' : Gen P.Graph)
          → CursorDrawn P good_lo first g₀ t' c' s'
          → Checked
              (RestDrawn P good_lo first g₀ in_loop stmts t' s')
              (generate_scoped_block P stmts loop_data c' s')
              none)
      → Checked
          (RestDrawn P good_lo first g₀ in_loop (and_stmt stmt stmts) t s)
          (generate_scoped_block P (and_stmt stmt stmts) loop_data c s)
          none
  unfolding generate_scoped_block draw
  and_stmt-Drawn first g₀ in_loop loop_data stmt stmts t c s built next =
      only-Checked built (λ c₁ s₁ d.
        weaken-Checked (next (graft t d.tree) c₁ s₁ d.cursor) (λ b s₂ r. record {
          tree = graft d.tree r.tree;
          draws = rw (draw, ExprFlow.◌>>=◌, d.draws, r.draws) refl;
          part = rw (← graft_assoc t d.tree r.tree) r.part;
          grows = r.grows;
          ahead = r.ahead;
          good = r.good;
        }))

  no_branches-Closes :
      (in_loop : Option ℕ) (loop_data : InternalLoopData) (drawing : M Tree)
      (last : ℕ → ℕ → GenM (Gen P.Graph) (Unit {0}))
      → Closes P good_lo drawing last
      → Closes P good_lo
          (draw_others in_loop no_branches drawing)
          (λ h f. stack_branches P no_branches loop_data last h f)
  unfolding stack_branches draw_others
  no_branches-Closes in_loop loop_data drawing last closes = closes

  mutual
    unfolding IsPlain IsPlainStmt IsPlainBranch ArePlain IsPlainDefault

    stmt-Drawn :
        (stmt : Stmt) (loop_data : InternalLoopData) (first : ℕ) (g₀ : P.Graph) (t : Tree)
        (c : Cursor) (s : Gen P.Graph)
        → 0 < P.node_count g₀
        → IsPlainStmt (id_of loop_data) stmt
        → CursorDrawn P good_lo first g₀ t c s
        → Checked
            (StmtDrawn P good_lo first g₀ (id_of loop_data) stmt t s)
            (generate_stmt P stmt loop_data c s)
            none
    stmt-Drawn (Ast.expr e) loop_data first g₀ t c s some_before plain x =
        expr-Drawn P good_lo first g₀ (id_of loop_data) loop_data e t c s x
    stmt-Drawn (Ast.assignment path e) loop_data first g₀ t c s some_before plain x =
        assignment-Drawn P good_lo first g₀ (id_of loop_data) loop_data path e t c s x
    stmt-Drawn (Ast.local_var_decl ann name e) loop_data first g₀ t c s some_before plain x =
        decl-Drawn P good_lo first g₀ (id_of loop_data) loop_data ann name e t c s x
    stmt-Drawn Ast.return_stmt loop_data first g₀ t c s some_before plain x =
        return-Drawn P good_lo first g₀ (id_of loop_data) loop_data t c s x
    stmt-Drawn (Ast.return_expr e) loop_data first g₀ t c s some_before plain x =
        return_expr-Drawn P good_lo first g₀ (id_of loop_data) loop_data e t c s x
    stmt-Drawn Ast.break_stmt loop_data first g₀ t c s some_before plain x = elim plain [ ]
    stmt-Drawn Ast.continue_stmt none first g₀ t c s some_before plain x = elim plain [ ]
    stmt-Drawn Ast.continue_stmt (some (head, foot, id)) first g₀ t c s some_before plain x =
        continue-Drawn P good_lo first g₀ head foot id t c s x
    stmt-Drawn (Ast.while_stmt condition body) loop_data first g₀ t c s some_before plain x =
        while-Drawn P good_lo first g₀ (id_of loop_data) some_before loop_data condition body t c s
          (λ head foot id s' some_before' good. begun-Drawn (some (head, foot, id)) (
            rest-Drawn body (some (head, foot, id)) s'.flow.next_id s'.graph Tree.done begin s'
              some_before' (plain id) (begin-CursorDrawn s' good)))
          x
    stmt-Drawn (Ast.if_stmt branch others default) loop_data first g₀ t c s some_before plain x =
        if-Drawn P good_lo first g₀ (id_of loop_data) some_before loop_data branch others default t
          c s (λ s' some_before' good. branch-Drawn branch loop_data s' some_before' plain.0 good)
          (others-Closes others loop_data _ _ plain.1 (default-Closes default loop_data plain.2)) x

    rest-Drawn :
        (block : Block) (loop_data : InternalLoopData) (first : ℕ) (g₀ : P.Graph) (t : Tree)
        (c : Cursor) (s : Gen P.Graph)
        → 0 < P.node_count g₀
        → IsPlain (id_of loop_data) block
        → CursorDrawn P good_lo first g₀ t c s
        → Checked
            (RestDrawn P good_lo first g₀ (id_of loop_data) block t s)
            (generate_scoped_block P block loop_data c s)
            none
    rest-Drawn no_stmts loop_data first g₀ t c s some_before plain x =
        no_stmts-Drawn P good_lo first g₀ (id_of loop_data) loop_data t c s x
    rest-Drawn (and_stmt stmt stmts) loop_data first g₀ t c s some_before plain x =
        and_stmt-Drawn first g₀ (id_of loop_data) loop_data stmt stmts t c s
          (stmt-Drawn stmt loop_data first g₀ t c s some_before plain.0 x)
          (λ t' c' s' x'. rest-Drawn stmts loop_data first g₀ t' c' s' some_before plain.1 x')

    branch-Drawn :
        (branch : Branch) (loop_data : InternalLoopData) (s : Gen P.Graph)
        → 0 < P.node_count s.graph
        → IsPlainBranch (id_of loop_data) branch
        → Good good_lo s.flow
        → Checked
            (BranchDrawn P good_lo (id_of loop_data) branch s)
            (generate_conditional P branch loop_data s)
            none
    branch-Drawn (branch_of condition body) loop_data s some_before plain good =
        conditional-Drawn P good_lo loop_data condition body s (
          begun-Drawn loop_data (
            rest-Drawn body loop_data s.flow.next_id s.graph Tree.done begin s some_before plain
              (begin-CursorDrawn s good)))

    others-Closes :
        (others : Branches) (loop_data : InternalLoopData) (drawing : M Tree)
        (last : ℕ → ℕ → GenM (Gen P.Graph) (Unit {0}))
        → ArePlain (id_of loop_data) others
        → Closes P good_lo drawing last
        → Closes P good_lo
            (draw_others (id_of loop_data) others drawing)
            (λ h f. stack_branches P others loop_data last h f)
    others-Closes no_branches loop_data drawing last plain closes =
        no_branches-Closes (id_of loop_data) loop_data drawing last closes
    others-Closes (and_branch branch others) loop_data drawing last plain closes =
        and_branch-Closes P good_lo loop_data branch others last drawing
          (λ s some_before good. branch-Drawn branch loop_data s some_before plain.0 good)
          (others-Closes others loop_data drawing last plain.1 closes)

    default-Closes :
        (default : OptBlock) (loop_data : InternalLoopData)
        → IsPlainDefault (id_of loop_data) default
        → Closes P good_lo
            (draw_default (id_of loop_data) default)
            (λ h f. stack_default P default loop_data h f)
    default-Closes no_block loop_data plain lo id h f condition t s good x =
        no_default-Stacked P good_lo (id_of loop_data) loop_data s good x
    default-Closes (default_block block) loop_data plain lo id h f condition t s good x =
        default-Stacked P good_lo loop_data block s x (
          begun-Drawn loop_data (
            rest-Drawn block loop_data s.flow.next_id s.graph Tree.done begin s
              (omega (arith, x.inside)) plain (begin-CursorDrawn s good)))

-- A block without statements has neither a head nor a foot, and changes nothing.
abbrev pub EmptyIsBare : {S : Type 0} → Block → BranchData → S → S → Type 0
EmptyIsBare no_stmts b s s' = (b ≡ record { head = none; foot = none }) × (s' ≡ s)
EmptyIsBare (and_stmt stmt stmts) b s s' = Unit

-- What is known of a call is known of its answer.
answer-Checked :
    {S A : Type 0} {Q : A → S → Type 0} {a : A} {s : S} → Checked Q (ok (a, s)) none → Q a s
answer-Checked (Checked.runs q) = q

with-EmptyIsBare :
    (P : Petgraph) {Q : BranchData → Gen P.Graph → Type 0} (block : Block)
    (loop_data : InternalLoopData) (s : Gen P.Graph)
    → Checked Q (generate_scoped_block P block loop_data begin s) none
    → Checked
        (λ b s'. Q b s' × EmptyIsBare block b s s')
        (generate_scoped_block P block loop_data begin s)
        none
unfolding generate_scoped_block flush
with-EmptyIsBare P no_stmts loop_data s built = Checked.runs (answer-Checked built, (refl, refl))
with-EmptyIsBare P (and_stmt stmt stmts) loop_data s built =
    weaken-Checked built (λ b s' q. (q, tt))

-- From a graph that has a node and data whose counters are ahead of every id in use, a block with no
-- `break`, and with `continue` in loops only, is built without an error or a panic. The nodes that
-- the graph had keep their weights and edges. The new nodes, from the head to the foot that are
-- returned, hold the tree that is drawn of the block, statement by statement and with the same ids:
-- once the foot is linked to a node from which a graph holds more code, the traversal of that graph
-- goes through the tree and then through that code. A block without statements has no head and no
-- foot, and leaves the graph and the data as they were.
pub generate_scoped_block-Drawn :
    (P : Petgraph) (good_lo : ℕ) (block : Block) (loop_data : InternalLoopData) (s : Gen P.Graph)
    → 0 < P.node_count s.graph
    → IsPlain (id_of loop_data) block
    → Good good_lo s.flow
    → Checked
        (λ b s'. BlockDrawn P good_lo (id_of loop_data) block s b s' × EmptyIsBare block b s s')
        (generate_scoped_block P block loop_data begin s)
        none
generate_scoped_block-Drawn P good_lo block loop_data s some_before plain good =
    with-EmptyIsBare P block loop_data s (
      begun-Drawn P good_lo loop_data (
        rest-Drawn P good_lo block loop_data s.flow.next_id s.graph Tree.done begin s some_before
          plain (begin-CursorDrawn P good_lo s good)))
