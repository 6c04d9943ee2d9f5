-- ===== src/ByteGen/FirstPass/Riding.antt =====
-- The first pass as the passenger of the traversal (smpl/src/code_gen/byte_gen/first_pass.rs and
-- smpl/src/analysis/linear_cfg_traversal.rs), on the graphs of structured code.
use smpl_mirror.Common.{
  ℕ, suc, ◌<◌, ◌≡◌, ◌⊎◌, inl, inr, List, [], ◌∷◌, Option, some, false, ok, arith, unwrapped,
}
use smpl_mirror.TypedAst.{Expr}
use smpl_mirror.ControlFlow.{
  Cfg, Node, BlockNode, Edge, on_true, on_false, next, after_loop_foot, after_conditional,
  after_return, after_continue, first_other, branches_of, second_or_other, is_own_head,
}
use smpl_mirror.ControlFlow
use smpl_mirror.Traversal.{Passenger}
use smpl_mirror.ByteGen.FirstPass.{
  FirstPass, on_start, on_end, loop_head, loop_foot, cont, br, local_var_decl, assignment, expr,
  ret, branch_split, branch_merge, branch_start_path, branch_end_path, set_true_branch,
  set_false_branch,
}
use smpl_mirror.ByteGen.FirstPass.Tree.{
  Simple, Tree, decl, assign, expr_stmt, return_stmt, continue_stmt,
}

-- `impl Passenger for FirstPass`
abbrev pub rider : {E : Type 0} → Passenger E FirstPass
rider = record {
  on_start = λ n p. unwrapped (on_start p);
  on_end = λ n p. unwrapped (on_end p);
  enter_scope = λ n p. ok p;
  exit_scope = λ n p. ok p;
  loop_head = λ n id e p. unwrapped (loop_head p id e);
  branch_split = λ n id e p. unwrapped (branch_split p id e);
  loop_foot = λ n id p. unwrapped (loop_foot p id);
  cont = λ n id p. unwrapped (cont p id);
  br = λ n id p. unwrapped (br p id);
  branch_merge = λ n id p. unwrapped (branch_merge p id);
  local_var_decl = λ n x e p. unwrapped (local_var_decl p x e);
  assignment = λ n path e p. unwrapped (assignment p path e);
  expr = λ n e p. unwrapped (expr p e);
  ret = λ n e p. unwrapped (ret p e);
  loop_start_true_path = λ n p. ok p;
  loop_end_true_path = λ n p. ok p;
  branch_start_true_path = λ n p. unwrapped (branch_start_path p);
  branch_start_false_path = λ n p. unwrapped (branch_start_path p);
  branch_end_true_path = λ n id p. unwrapped (branch_end_path p set_true_branch);
  branch_end_false_path = λ n id p. unwrapped (branch_end_path p set_false_branch);
}

abbrev pub statement : BlockNode → Simple
statement (ControlFlow.local_var_decl x e) = decl x e
statement (ControlFlow.assignment path e) = assign path e
statement (ControlFlow.expr e) = expr_stmt e

abbrev pub block_tree : List BlockNode → Tree → Tree
block_tree [] rest = rest
block_tree (b ∷ bs) rest = Tree.simple (statement b) (block_tree bs rest)

-- The two edges, in any order.
abbrev pub Fork : Cfg → ℕ → Edge × ℕ → Edge × ℕ → Type 0
Fork g n a b = (g.edges n ≡ a ∷ b ∷ []) ⊎ (g.edges n ≡ b ∷ a ∷ [])

-- From the first node on, the graph holds the tree: the traversal comes to the second node, which
-- is not of the tree, after so many visits.
pub data Laid (g : Cfg) : Tree → ℕ → ℕ → ℕ → Type 0 where
  done : {n : ℕ} → Laid g Tree.done n n 0
  enter :
      {n m stop k : ℕ} {e : Edge} {rest : Tree}
      → g.weight n ≡ some Node.enter_scope
      → g.edges n ≡ (e, m) ∷ []
      → Laid g rest m stop k
      → Laid g rest n stop (suc k)
  exit :
      {n m stop k : ℕ} {e : Edge} {rest : Tree}
      → g.weight n ≡ some Node.exit_scope
      → g.edges n ≡ (e, m) ∷ []
      → Laid g rest m stop k
      → Laid g rest n stop (suc k)
  block :
      {n m stop k : ℕ} {e : Edge} {bs : List BlockNode} {rest : Tree}
      → g.weight n ≡ some (Node.block bs)
      → g.edges n ≡ (e, m) ∷ []
      → Laid g rest m stop k
      → Laid g (block_tree bs rest) n stop (suc k)
  return :
      {n m stop k : ℕ} {e : Edge} {value : Option Expr} {rest : Tree}
      → g.weight n ≡ some (Node.return value)
      → g.edges n ≡ (e, m) ∷ []
      → Laid g rest m stop k
      → Laid g (Tree.simple (return_stmt value) rest) n stop (suc k)
  continue :
      {n m stop k id : ℕ} {e : Edge} {rest : Tree}
      → g.weight n ≡ some (Node.continue id)
      → g.edges n ≡ (e, m) ∷ []
      → Laid g rest m stop k
      → Laid g (Tree.simple (continue_stmt id) rest) n stop (suc k)
  loop :
      {n t foot m stop k k' id : ℕ} {e e' : Edge} {w : Node} {condition : Expr} {body rest : Tree}
      → g.weight n ≡ some (Node.loop_head id condition)
      → Fork g n (on_true, t) (on_false, foot)
      → Laid g body t foot k'
      → k' < g.node_count
      → g.weight foot ≡ some (Node.loop_foot id)
      → Fork g foot (e, n) (e', m)
      → g.weight m ≡ some w
      → is_own_head id w ≡ false
      → Laid g rest m stop k
      → Laid g (Tree.loop id condition body rest) n stop (suc k)
  branch :
      {n t f merge m stop k k' k'' id : ℕ} {e : Edge} {condition : Expr}
      {true_path false_path rest : Tree}
      → g.weight n ≡ some (Node.branch_split id condition)
      → Fork g n (on_true, t) (on_false, f)
      → Laid g true_path t merge k'
      → k' < g.node_count
      → Laid g false_path f merge k''
      → k'' < g.node_count
      → g.weight merge ≡ some (Node.branch_merge id)
      → g.edges merge ≡ (e, m) ∷ []
      → Laid g rest m stop k
      → Laid g (Tree.branch id condition true_path false_path rest) n stop (suc k)

module _ {E : Type 0} (g : Cfg) where
  pub next_lem : (n m : ℕ) {e : Edge} → g.edges n ≡ (e, m) ∷ [] → next {E = E} g n ≡ ok m
  unfolding next
  next_lem n m p = rw p

  pub after_return_lem :
      (n m : ℕ) {e : Edge} {value : Option Expr}
      → g.weight n ≡ some (Node.return value)
      → g.edges n ≡ (e, m) ∷ []
      → after_return {E = E} g n ≡ ok m
  unfolding after_return
  after_return_lem n m w p = rw (w, p)

  pub after_continue_lem :
      (n m id : ℕ) {e : Edge}
      → g.weight n ≡ some (Node.continue id)
      → g.edges n ≡ (e, m) ∷ []
      → after_continue {E = E} g n ≡ ok m
  unfolding after_continue
  after_continue_lem n m id w p = rw (w, p)

  pub Fork-head :
      (n t f id : ℕ) {condition : Expr}
      → g.weight n ≡ some (Node.loop_head id condition)
      → Fork g n (on_true, t) (on_false, f)
      → after_conditional {E = E} g n ≡ ok (t, f)
  unfolding after_conditional branches_of
  Fork-head n t f id w (inl p) = rw (w, p)
  Fork-head n t f id w (inr p) = rw (w, p)

  pub Fork-split :
      (n t f id : ℕ) {condition : Expr}
      → g.weight n ≡ some (Node.branch_split id condition)
      → Fork g n (on_true, t) (on_false, f)
      → after_conditional {E = E} g n ≡ ok (t, f)
  unfolding after_conditional branches_of
  Fork-split n t f id w (inl p) = rw (w, p)
  Fork-split n t f id w (inr p) = rw (w, p)

  pub Fork-foot :
      (n foot m id : ℕ) {condition : Expr} {w : Node} {e e' : Edge}
      → g.weight foot ≡ some (Node.loop_foot id)
      → g.weight n ≡ some (Node.loop_head id condition)
      → g.weight m ≡ some w
      → is_own_head id w ≡ false
      → Fork g foot (e, n) (e', m)
      → after_loop_foot {E = E} g foot ≡ ok m
  unfolding after_loop_foot first_other
  Fork-foot n foot m id a b c d (inl p) = rw (a, p, b, c, d) (ground arith)
  Fork-foot n foot m id a b c d (inr p) = rw (a, p, c, d)
