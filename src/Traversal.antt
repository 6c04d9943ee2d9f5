-- ===== src/Traversal.antt =====
-- smpl/src/analysis/linear_cfg_traversal.rs: the traversal of a control flow graph, which tells a
-- passenger of the nodes.
use smpl_mirror.Common.{
  ℕ, zero, suc, String, List, [], ◌∷◌, Option, none, some, Outcome, ok, panic, ◌>>=◌,
}
use smpl_mirror.TypedAst.{Expr, FieldPath}
use smpl_mirror.ControlFlow.{
  Cfg, Node, BlockNode, node_weight, next, after_loop_foot, after_conditional, after_return,
  after_continue, after_break,
}

-- `Passenger`, whose methods change its state `P`. The first number is the node.
pub record Passenger (E P : Type 0) : Type 0 where
  pub on_start : ℕ → P → Outcome E P
  pub on_end : ℕ → P → Outcome E P
  pub enter_scope : ℕ → P → Outcome E P
  pub exit_scope : ℕ → P → Outcome E P
  pub loop_head : ℕ → ℕ → Expr → P → Outcome E P
  pub branch_split : ℕ → ℕ → Expr → P → Outcome E P
  pub loop_foot : ℕ → ℕ → P → Outcome E P
  pub cont : ℕ → ℕ → P → Outcome E P
  pub br : ℕ → ℕ → P → Outcome E P
  pub branch_merge : ℕ → ℕ → P → Outcome E P
  pub local_var_decl : ℕ → String → Expr → P → Outcome E P
  pub assignment : ℕ → FieldPath → Expr → P → Outcome E P
  pub expr : ℕ → Expr → P → Outcome E P
  pub ret : ℕ → Option Expr → P → Outcome E P
  pub loop_start_true_path : ℕ → P → Outcome E P
  pub loop_end_true_path : ℕ → P → Outcome E P
  pub branch_start_true_path : ℕ → P → Outcome E P
  pub branch_start_false_path : ℕ → P → Outcome E P
  pub branch_end_true_path : ℕ → ℕ → P → Outcome E P
  pub branch_end_false_path : ℕ → ℕ → P → Outcome E P

-- How a loop of visits ends: at a node at which it stops, behind the end of the graph, or after
-- its last turn.
pub data Walked (P : Type 0) : Type 0 where
  found : ℕ → P → Walked P
  ended : P → Walked P
  exhausted : Walked P

abbrev pub Visit : Type 0 → Type 0 → Type 0
Visit E P = ℕ → P → Outcome E (Option ℕ × P)

-- Whether a walk stops at a node, and what it does there.
abbrev pub Finish : Type 0 → Type 0 → Type 0
Finish E P = ℕ → Node → Option (P → Outcome E P)

module _ {E P : Type 0} (g : Cfg) (passenger : Passenger E P) where
  -- A `for` loop over the number of nodes: the node is one to stop at, or it is visited.
  unfoldable pub walk_until : Finish E P → Visit E P → ℕ → ℕ → P → Outcome E (Walked P)
  walk_until finish visit zero current p = ok exhausted
  walk_until finish visit (suc n) current p = do
    w ← node_weight g current
    elim (finish current w) [
      | some last ↦ do p₁ ← last p; ok (found current p₁)
      | none ↦ do
        (following, p₁) ← visit current p
        elim following [ none ↦ ok (ended p₁) | some m ↦ walk_until finish visit n m p₁ ]
    ]

  abbrev pub at_foot : Finish E P
  at_foot n (Node.loop_foot id) =
      some (λ p. do p₁ ← passenger.loop_end_true_path n p; passenger.loop_foot n id p₁)
  at_foot n _ = none

  abbrev pub at_merge_true : Finish E P
  at_merge_true n (Node.branch_merge id) = some (passenger.branch_end_true_path n id)
  at_merge_true n _ = none

  abbrev pub at_merge_false : Finish E P
  at_merge_false n (Node.branch_merge id) =
      some (λ p. do p₁ ← passenger.branch_end_false_path n id p; passenger.branch_merge n id p₁)
  at_merge_false n _ = none

  abbrev pub nowhere : Finish E P
  nowhere n w = none

  abbrev merged : Walked P → Outcome E (ℕ × P)
  merged (found merge p) = ok (merge, p)
  merged _ = panic

  abbrev after_body : ℕ → Walked P → Outcome E (Option ℕ × P)
  after_body foot (found n p) = do
    w ← node_weight g foot
    m ← after_loop_foot g foot
    ok (some m, p)
  after_body foot (ended p) = ok (none, p)
  after_body foot exhausted = panic

  abbrev visit_block_node : ℕ → BlockNode → P → Outcome E P
  visit_block_node n (BlockNode.local_var_decl x e) p = passenger.local_var_decl n x e p
  visit_block_node n (BlockNode.assignment path e) p = passenger.assignment n path e p
  visit_block_node n (BlockNode.expr e) p = passenger.expr n e p

  unfoldable pub visit_block : ℕ → List BlockNode → P → Outcome E P
  visit_block n [] p = ok p
  visit_block n (b ∷ bs) p = do p₁ ← visit_block_node n b p; visit_block n bs p₁

  abbrev go_on : (ℕ → Outcome E ℕ) → ℕ → P → Outcome E (Option ℕ × P)
  go_on query n p = do m ← query n; ok (some m, p)

  -- One level of `visit_node`, on the visits of the level below.
  unfoldable pub visit_with : Visit E P → ℕ → Node → P → Outcome E (Option ℕ × P)
  unfolding walk_until visit_block
  visit_with visit n Node.end p = do p₁ ← passenger.on_end n p; ok (none, p₁)
  visit_with visit n Node.start p = do p₁ ← passenger.on_start n p; go_on (next g) n p₁
  visit_with visit n (Node.branch_split id e) p = do
    p₁ ← passenger.branch_split n id e p
    (true_path, false_path) ← after_conditional g n
    p₂ ← passenger.branch_start_true_path true_path p₁
    walked ← walk_until at_merge_true visit g.node_count true_path p₂
    (merge, p₃) ← merged walked
    p₄ ← passenger.branch_start_false_path false_path p₃
    walked' ← walk_until at_merge_false visit g.node_count false_path p₄
    (merge', p₅) ← merged walked'
    go_on (next g) merge' p₅
  visit_with visit n (Node.branch_merge id) p = panic
  visit_with visit n (Node.loop_head id e) p = do
    p₁ ← passenger.loop_head n id e p
    (true_path, false_path) ← after_conditional g n
    p₂ ← passenger.loop_start_true_path true_path p₁
    walked ← walk_until at_foot visit g.node_count true_path p₂
    after_body false_path walked
  visit_with visit n (Node.loop_foot id) p = panic
  visit_with visit n (Node.continue id) p = do
    p₁ ← passenger.cont n id p
    go_on (after_continue g) n p₁
  visit_with visit n (Node.break id) p = do p₁ ← passenger.br n id p; go_on (after_break g) n p₁
  visit_with visit n Node.enter_scope p = do p₁ ← passenger.enter_scope n p; go_on (next g) n p₁
  visit_with visit n Node.exit_scope p = do p₁ ← passenger.exit_scope n p; go_on (next g) n p₁
  visit_with visit n (Node.block bs) p = do p₁ ← visit_block n bs p; go_on (next g) n p₁
  visit_with visit n (Node.return e) p = do p₁ ← passenger.ret n e p; go_on (after_return g) n p₁

  -- The recursion goes into loops and branches, and takes fuel, which is their depth. A visit
  -- without fuel panics.
  unfoldable pub visit_node : ℕ → Visit E P
  unfolding visit_with
  visit_node zero n p = panic
  visit_node (suc fuel) n p = do w ← node_weight g n; visit_with (visit_node fuel) n w p

  abbrev all_visited : Walked P → Outcome E P
  all_visited (ended p) = ok p
  all_visited _ = panic

  unfoldable pub traverse : ℕ → P → Outcome E P
  unfolding visit_node
  traverse fuel p = do
    walked ← walk_until nowhere (visit_node fuel) g.node_count g.start_node p
    all_visited walked
