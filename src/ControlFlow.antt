-- ===== src/ControlFlow.antt =====
-- smpl/src/analysis/control_flow.rs and control_data.rs: the nodes of a control flow graph, and the
-- queries of a graph that its traversal makes. The graph itself is one of the petgraph crate.
pub mod Petgraph
pub mod Generate
pub mod Bounds
pub mod Checked
pub mod Errors
pub mod Listed
mod Tests
use smpl_mirror.Common.{
  ℕ, String, List, [], ◌∷◌, Option, none, some, Bool, true, false, ◌==◌, if◌then◌else◌, Outcome, ok,
  panic, unwrapped, ◌>>=◌,
}
use smpl_mirror.TypedAst.{Expr, FieldPath}

-- control_data.rs
pub data BlockNode : Type 0 where
  local_var_decl : String → Expr → BlockNode
  assignment : FieldPath → Expr → BlockNode
  expr : Expr → BlockNode

pub data Node : Type 0 where
  start end enter_scope exit_scope : Node
  return : Option Expr → Node
  break continue : ℕ → Node
  branch_split : ℕ → Expr → Node
  branch_merge : ℕ → Node
  loop_head : ℕ → Expr → Node
  loop_foot : ℕ → Node
  block : List BlockNode → Node

pub data Edge : Type 0 where
  normal on_true on_false back_edge : Edge

-- What the crate answers of a graph: the weight of a node, the outgoing edges of a node with their
-- targets, and the number of nodes; and the node at which the graph starts.
pub record Cfg : Type 0 where
  pub weight : ℕ → Option Node
  pub edges : ℕ → List (Edge × ℕ)
  pub node_count : ℕ
  pub start_node : ℕ

abbrev Answer : Type 0 → Type 0 → Type 0
Answer E A = Outcome E A

abbrev targets : List (Edge × ℕ) → List ℕ
targets [] = []
targets ((e, n) ∷ es) = n ∷ targets es

-- `neighbors!`
abbrev pub neighbors : Cfg → ℕ → List ℕ
neighbors g id = targets (g.edges id)

-- Whether the neighbor of a loop's foot is the head of that loop.
abbrev pub is_own_head : ℕ → Node → Bool
is_own_head loop_id (Node.loop_head j _) = loop_id == j
is_own_head loop_id _ = false

abbrev is_end : Node → Bool
is_end Node.end = true
is_end _ = false

abbrev is_head : Node → Bool
is_head (Node.loop_head _ _) = true
is_head _ = false

abbrev is_foot : Node → Bool
is_foot (Node.loop_foot _) = true
is_foot _ = false

module _ {E : Type 0} (g : Cfg) where
  -- `node_w!` and `node_weight`
  abbrev pub node_weight : ℕ → Answer E Node
  node_weight id = unwrapped (g.weight id)

  abbrev only : List ℕ → Answer E ℕ
  only (n ∷ []) = ok n
  only _ = panic

  unfoldable pub next : ℕ → Answer E ℕ
  next id = only (neighbors g id)

  -- The first of the neighbors that the test does not hold back.
  unfoldable pub first_other : (Node → Bool) → List ℕ → Answer E ℕ
  first_other held [] = panic
  first_other held (n ∷ ns) = do
    w ← node_weight n
    let rest = first_other held ns
    if held w then rest else ok n

  abbrev after_foot : Node → List ℕ → Answer E ℕ
  after_foot (Node.loop_foot loop_id) (n ∷ m ∷ []) = first_other (is_own_head loop_id) (n ∷ m ∷ [])
  after_foot _ _ = panic

  unfoldable pub after_loop_foot : ℕ → Answer E ℕ
  unfolding first_other
  after_loop_foot id = do w ← node_weight id; after_foot w (neighbors g id)

  abbrev check_condition : Node → Answer E (Unit {0})
  check_condition (Node.loop_head _ _) = ok tt
  check_condition (Node.branch_split _ _) = ok tt
  check_condition _ = panic

  -- The loop over the edges, with what it has found on true and on false.
  unfoldable pub branches_of : List (Edge × ℕ) → Option ℕ → Option ℕ → Answer E (ℕ × ℕ)
  branches_of [] t f = do
    true_branch ← unwrapped t
    false_branch ← unwrapped f
    ok (true_branch, false_branch)
  branches_of ((on_true, n) ∷ es) t f = branches_of es (some n) f
  branches_of ((on_false, n) ∷ es) t f = branches_of es t (some n)
  branches_of ((_, n) ∷ es) t f = panic

  abbrev two_edges : List (Edge × ℕ) → Answer E (ℕ × ℕ)
  two_edges (e ∷ e' ∷ []) = branches_of (e ∷ e' ∷ []) none none
  two_edges _ = panic

  unfoldable pub after_conditional : ℕ → Answer E (ℕ × ℕ)
  unfolding branches_of
  after_conditional id = do w ← node_weight id; checked ← check_condition w; two_edges (g.edges id)

  -- The loop over two neighbors that passes over the first one with the property.
  unfoldable pub second_or_other : (Node → Bool) → Bool → List ℕ → Answer E ℕ
  second_or_other test found [] = panic
  second_or_other test found (n ∷ ns) = do
    w ← node_weight n
    let rest = second_or_other test true ns
    if test w then (if found then ok n else rest) else ok n

  abbrev one_or_two : (Node → Bool) → List ℕ → Answer E ℕ
  one_or_two test (n ∷ []) = ok n
  one_or_two test (n ∷ m ∷ []) = second_or_other test false (n ∷ m ∷ [])
  one_or_two test _ = panic

  abbrev check_return : Node → Answer E (Unit {0})
  check_return (Node.return _) = ok tt
  check_return _ = panic

  abbrev check_continue : Node → Answer E (Unit {0})
  check_continue (Node.continue _) = ok tt
  check_continue _ = panic

  abbrev check_break : Node → Answer E (Unit {0})
  check_break (Node.break _) = ok tt
  check_break _ = panic

  unfoldable pub after_return : ℕ → Answer E ℕ
  unfolding second_or_other
  after_return id = do
    w ← node_weight id
    checked ← check_return w
    one_or_two is_end (neighbors g id)

  unfoldable pub after_continue : ℕ → Answer E ℕ
  unfolding second_or_other
  after_continue id = do
    w ← node_weight id
    checked ← check_continue w
    one_or_two is_head (neighbors g id)

  -- With one neighbor, the code goes on to its `unreachable!`.
  abbrev two_only : List ℕ → Answer E ℕ
  two_only (n ∷ m ∷ []) = second_or_other is_foot false (n ∷ m ∷ [])
  two_only _ = panic

  unfoldable pub after_break : ℕ → Answer E ℕ
  unfolding second_or_other
  after_break id = do w ← node_weight id; checked ← check_break w; two_only (neighbors g id)
