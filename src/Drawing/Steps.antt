-- ===== src/Drawing/Steps.antt =====
-- The steps of smpl/src/analysis/control_flow.rs that succeed, one after the other; and a branch
-- with its condition.
use mathlib.Core.Path.{subst}
use smpl_mirror.ControlFlow.{normal, on_true}
use smpl_mirror.ControlFlow.Checked.{edge-then}
use smpl_mirror.Common.{ℕ, ◌+◌, [], Option, none, some, ◌≡◌, refl, sym, ◌≤◌, Outcome, arith}
use smpl_mirror.Ast
use smpl_mirror.Ast.{Block, Branch, branch_of}
use smpl_mirror.TypedAst.{Expr}
use smpl_mirror.ExprFlow
use smpl_mirror.ExprFlow.{M, flatten}
use smpl_mirror.ExprFlow.Steps.{Good, Done}
use smpl_mirror.ExprFlow.Total.{flatten-Done}
use smpl_mirror.ControlFlow.Petgraph.{Petgraph}
use smpl_mirror.ControlFlow.Generate.{
  ControlFlowError, BranchData, InternalLoopData, begin, Gen, GenM, and_then, flowing,
  finish_branch, with_condition, add_node, generate_scoped_block, generate_conditional,
}
use smpl_mirror.ControlFlow.Checked.{Checked, only-Checked}
use smpl_mirror.ByteGen.FirstPass.Tree.{Tree}
use smpl_mirror.Drawing.{draw, draw_branch}
use smpl_mirror.Drawing.Graphs.{
  Grows, Grows-trans, Grows-add_node, Spans-refl, Spans-trans, Spans-narrow,
}
use smpl_mirror.Drawing.Fragment.{Part}
use smpl_mirror.Drawing.Wrapping.{with_ends, with_ends-Ends, Scoped, scoped-Scoped}
use smpl_mirror.Drawing.Branching.{OpenBranch}
use smpl_mirror.Drawing.Opening.{with_branch-Opened}

-- A step that leaves the data of the flattening as they are.
pub graph-then :
    {Graph A B : Type 0} {r : Outcome ControlFlowError (A × Gen Graph)} {Q : A → Graph → Type 0}
    {R : B → Gen Graph → Type 0} (f : A → GenM (Gen Graph) B) (flow : ExprFlow.State)
    → Checked (λ a s. Q a s.graph × (s.flow ≡ flow)) r none
    → ((a : A) (g : Graph) → Q a g → Checked R (f a (record { graph = g; flow = flow })) none)
    → Checked R (and_then r f) none
graph-then {R = R} f flow (Checked.runs {a = a} {s = s} (q, same)) next =
    subst (λ flow. Checked R (f a (record { graph = s.graph; flow = flow })) none) (sym same)
      (next a s.graph q)

pub flow-then :
    {Graph A B : Type 0} {m : M A} {lo : ℕ} {Q : A → ExprFlow.State → Type 0}
    {R : B → Gen Graph → Type 0} (f : A → GenM (Gen Graph) B) (s : Gen Graph)
    (d : Done lo s.flow m Q)
    → Checked R (f d.answer (record { graph = s.graph; flow = d.after })) none
    → Checked R (and_then (flowing m s) f) none
unfolding flowing
flow-then f s d next = rw d.runs next

pub new_id-Good :
    {lo : ℕ} (flow : ExprFlow.State)
    → Good lo flow
    → Good lo (record flow { next_id = flow.next_id + 1 })
new_id-Good flow g = record {
  below = λ id le. g.below id (omega arith);
  mapped = g.mapped;
  fns = g.fns;
}

module _ (P : Petgraph) (lo : ℕ) where
  -- The block is built, and is what is drawn of it.
  pub record BlockDrawn (in_loop : Option ℕ) (block : Block) (s : Gen P.Graph) (b : BranchData)
      (s' : Gen P.Graph) : Type 0 where
    pub tree : Tree
    pub draws : draw in_loop block s.flow ≡ some (tree, s'.flow)
    pub part :
        Part P (P.node_count s.graph) s.flow.next_id s'.graph s'.flow.next_id b.head b.foot tree
    pub grows : Grows P s.graph s'.graph
    pub good : Good lo s'.flow
    pub ahead : s.flow.next_id ≤ s'.flow.next_id

  pub record BranchDrawn (in_loop : Option ℕ) (branch : Branch) (s : Gen P.Graph) (ends : ℕ × ℕ)
      (s' : Gen P.Graph) : Type 0 where
    pub id : ℕ
    pub flat : Expr
    pub tree : Tree
    pub draws : draw_branch in_loop branch s.flow ≡ some ((id, flat, tree), s'.flow)
    pub open_branch : OpenBranch P (P.node_count s.graph) id flat ends.0 ends.1 s'.graph tree
    pub bare : P.edges s'.graph ends.1 ≡ []
    pub grows : Grows P s.graph s'.graph
    pub good : Good lo s'.flow
    pub ahead : s.flow.next_id ≤ s'.flow.next_id

  pub conditional-Drawn :
      {in_loop : Option ℕ} (loop_data : InternalLoopData) (condition : Ast.Expr) (body : Block)
      (s : Gen P.Graph)
      → Checked (BlockDrawn in_loop body s) (generate_scoped_block P body loop_data begin s) none
      → Checked
          (BranchDrawn in_loop (branch_of condition body) s)
          (generate_conditional P (branch_of condition body) loop_data s)
          none
  unfolding generate_conditional finish_branch add_node with_condition draw_branch flowing
  conditional-Drawn loop_data condition body s built = only-Checked built (λ b s₁ d.
      let flow = record s₁.flow { next_id = s₁.flow.next_id + 1 } in
      let e = flatten-Done lo condition flow (new_id-Good s₁.flow d.good) in
      graph-then _ s₁.flow
        (scoped-Scoped P {first = 0} d.grows.more
          (record { graph = with_ends P s₁.graph; flow = s₁.flow }) d.part
          (with_ends-Ends P s₁.graph (Spans-refl P _ _ s₁.graph) refl))
        (λ _ g₂ sc. rw e.runs (
          let o = with_branch-Opened P s₁.flow.next_id e.answer sc.fragment in
          edge-then P _ _ on_true _ _ o.split_to o.enter_to (
            edge-then P _ _ normal _ _ o.exit_to o.merge_to (
              Checked.runs (record {
                id = s₁.flow.next_id;
                flat = e.answer;
                tree = d.tree;
                draws = rw (draw_branch, ExprFlow.◌>>=◌, d.draws, e.runs) refl;
                open_branch = o.branch;
                bare = o.bare;
                grows = Spans-trans P d.grows (
                    Spans-trans P
                      (Spans-narrow P (omega arith) d.grows.more
                        (Grows-trans P (Grows-add_node P _ s₁.graph) (Grows-add_node P _ _)))
                      (Spans-trans P sc.below o.below));
                good = e.good;
                ahead = omega (arith, d.ahead, e.ahead);
              }))))))

  pub else-Scoped :
      {lo' first ids : ℕ} {h p : Option ℕ} {t : Tree} (s : Gen P.Graph)
      → lo' ≤ P.node_count s.graph
      → Part P lo' first s.graph ids h p t
      → Checked
          (λ ends s'.
            Scoped P lo' 0 ids (with_ends P s.graph) s'.graph ends.0 ends.1 t × (s'.flow ≡ s.flow))
          (finish_branch P none (record { head = h; foot = p }) s)
          none
  unfolding finish_branch add_node with_condition
  else-Scoped s le part =
      graph-then _ s.flow
        (scoped-Scoped P {first = 0} le (record { graph = with_ends P s.graph; flow = s.flow }) part
          (with_ends-Ends P s.graph (Spans-refl P _ _ s.graph) refl))
        (λ _ g sc. Checked.runs (sc, refl))
