-- ===== src/ControlFlow/Generate.antt =====
-- smpl/src/analysis/control_flow.rs: the control flow graph of the body of a function. A panic of
-- the crate at an edge to a node that is not there is a panic here. The types that `generate` looks up are not modelled: whether the function returns the unit type is an
-- argument of it.
use smpl_mirror.Common.{
  ℕ, ◌+◌, List, [], ◌∷◌, ◌++◌, Option, none, some, Bool, true, false, Outcome, ok, err, panic, ltb,
  ◌&&◌, if◌then◌else◌,
}
use smpl_mirror.Ast
use smpl_mirror.Ast.{
  Block, Stmt, Branch, Branches, OptBlock, no_stmts, and_stmt, branch_of, no_branches, and_branch,
  no_block, default_block,
}
use smpl_mirror.ExprFlow.{M, AnonStorage, flatten, flatten_path}
use smpl_mirror.ExprFlow
use smpl_mirror.ControlFlow.{Node, BlockNode, Edge, Cfg, normal, on_true, on_false, back_edge}
use smpl_mirror.ControlFlow.Petgraph.{Petgraph, cfg_of}

pub data ControlFlowError : Type 0 where
  bad_break bad_continue : ControlFlowError

-- `BranchData`
pub record BranchData : Type 0 where
  pub head : Option ℕ
  pub foot : Option ℕ

-- `InternalLoopData`: the head, the foot and the id of the loop.
abbrev pub InternalLoopData : Type 0
InternalLoopData = Option (ℕ × ℕ × ℕ)

-- The variables of `generate_scoped_block`.
pub record Cursor : Type 0 where
  pub head : Option ℕ
  pub previous : Option ℕ
  pub current_block : List BlockNode

abbrev pub begin : Cursor
begin = record { head = none; previous = none; current_block = [] }

-- The graph of `self`, and the data that the flattening of expressions changes.
pub record Gen (Graph : Type 0) : Type 0 where
  pub graph : Graph
  pub flow : ExprFlow.State

abbrev pub GenM : Type 0 → Type 0 → Type 0
GenM S A = S → Outcome ControlFlowError (A × S)

abbrev pub pure : {S A : Type 0} → A → GenM S A
pure a s = ok (a, s)

abbrev pub and_then :
    {S A B : Type 0}
    → Outcome ControlFlowError (A × S)
    → (A → GenM S B)
    → Outcome ControlFlowError (B × S)
and_then panic f = panic
and_then (err e) f = err e
and_then (ok (a, s)) f = f a s

infixl 5 ◌>>=◌
abbrev pub ◌>>=◌ : {S A B : Type 0} → GenM S A → (A → GenM S B) → GenM S B
◌>>=◌ m f s = and_then (m s) f

abbrev pub throw : {S A : Type 0} → ControlFlowError → GenM S A
throw e s = err e

-- `unwrap`, `expect` and `unreachable!`
abbrev pub abort : {S A : Type 0} → GenM S A
abort s = panic

abbrev pub expected : {S : Type 0} → Option ℕ → GenM S ℕ
expected none = abort
expected (some n) = pure n

abbrev in_flow :
    {Graph A : Type 0}
    → Graph
    → Option (A × ExprFlow.State)
    → Outcome ControlFlowError (A × Gen Graph)
in_flow g none = panic
in_flow g (some (a, flow)) = ok (a, record { graph = g; flow = flow })

unfoldable pub flowing : {Graph A : Type 0} → M A → GenM (Gen Graph) A
flowing m s = in_flow s.graph (m s.flow)

-- `new_var_id`, `new_loop_id` and `new_branching_id` take from one counter.
abbrev pub new_id : M ℕ
new_id s = some (s.next_id, record s { next_id = s.next_id + 1 })

module _ (P : Petgraph) where
  unfoldable pub add_node : Node → GenM (Gen P.Graph) ℕ
  add_node w s = ok (P.node_count s.graph, record { graph = P.add_node w s.graph; flow = s.flow })

  -- The crate panics if one of the numbers is not that of a node.
  unfoldable pub add_edge : ℕ → ℕ → Edge → GenM (Gen P.Graph) (Unit {0})
  add_edge a b e s =
      if ltb a (P.node_count s.graph) && ltb b (P.node_count s.graph)
      then ok (tt, record { graph = P.add_edge a b e s.graph; flow = s.flow })
      else panic

  unfoldable pub link : Option ℕ → ℕ → Edge → GenM (Gen P.Graph) (Unit {0})
  unfolding add_edge
  link none n e = pure tt
  link (some previous) n e = add_edge previous n e

  abbrev pub or_else : Option ℕ → ℕ → ℕ
  or_else none n = n
  or_else (some h) n = h

  -- `append_node_index!`
  unfoldable pub append_node_index : Cursor → ℕ → GenM (Gen P.Graph) Cursor
  unfolding link
  append_node_index c n = do
    linked ← link c.previous n normal
    pure (record c { head = some (or_else c.head n); previous = some n })

  -- `append_node!`
  unfoldable pub append_node : Cursor → Node → GenM (Gen P.Graph) Cursor
  unfolding add_node append_node_index
  append_node c w = do n ← add_node w; append_node_index c n

  -- The current basic block is appended, if it is not empty.
  unfoldable pub flush : Cursor → GenM (Gen P.Graph) Cursor
  unfolding append_node
  flush c = elim c.current_block [
    | [] ↦ pure c
    | b ∷ bs ↦ append_node (record c { current_block = [] }) (Node.block (b ∷ bs))
  ]

  abbrev pub push : Cursor → BlockNode → Cursor
  push c b = record c { current_block = c.current_block ++ b ∷ [] }

  abbrev pub to_loop :
      ControlFlowError → (ℕ → Node) → InternalLoopData → Cursor → GenM (Gen P.Graph) Cursor
  to_loop e node none c = throw e
  to_loop e node (some (loop_head, loop_foot, loop_id)) c = do
    c₁ ← flush c
    append_node c₁ (node loop_id)

  -- The branch on an enter and an exit of a scope.
  abbrev pub scoped : BranchData → ℕ → ℕ → GenM (Gen P.Graph) (Unit {0})
  scoped b enter exit = elim b.head [
    | some head ↦ elim b.foot [
      | some foot ↦ add_edge enter head normal >>= λ linked. add_edge foot exit normal
      | none ↦ add_edge enter head normal >>= λ linked. add_edge head exit normal
    ]
    | none ↦ elim b.foot [ none ↦ add_edge enter exit normal | some foot ↦ abort ]
  ]

  -- The `match` on the condition in `generate_branch`.
  unfoldable pub with_condition : Option Ast.Expr → ℕ → ℕ → GenM (Gen P.Graph) (ℕ × ℕ)
  unfolding add_node add_edge
  with_condition none enter exit = pure (enter, exit)
  with_condition (some condition) enter exit = do
    branch_id ← flowing new_id
    e ← flowing (flatten condition)
    split_node ← add_node (Node.branch_split branch_id e)
    merge_node ← add_node (Node.branch_merge branch_id)
    linked ← add_edge split_node enter on_true
    linked' ← add_edge exit merge_node normal
    pure (split_node, merge_node)

  -- `generate_branch`, after the body of the branch.
  unfoldable pub finish_branch : Option Ast.Expr → BranchData → GenM (Gen P.Graph) (ℕ × ℕ)
  unfolding add_node add_edge with_condition
  finish_branch condition branch_graph = do
    scope_enter ← add_node Node.enter_scope
    scope_exit ← add_node Node.exit_scope
    linked ← scoped branch_graph scope_enter scope_exit
    with_condition condition scope_enter scope_exit

  -- The end of a `while`, after the body of the loop.
  unfoldable pub close_loop : BranchData → ℕ → ℕ → GenM (Gen P.Graph) (Unit {0})
  unfolding add_node add_edge
  close_loop body loop_head loop_foot = do
    exits ← add_edge loop_head loop_foot on_false
    elim body.head [
      | none ↦ add_edge loop_head loop_foot on_true
      | some body_head ↦ do
        scope_enter ← add_node Node.enter_scope
        scope_exit ← add_node Node.exit_scope
        enters ← add_edge loop_head scope_enter on_true
        into ← add_edge scope_enter body_head normal
        body_foot ← expected body.foot
        out ← add_edge body_foot scope_exit normal
        add_edge scope_exit loop_foot normal
    ]

  -- The head and the foot of a new loop, and its id.
  unfoldable pub open_loop : Ast.Expr → GenM (Gen P.Graph) (ℕ × ℕ × ℕ)
  unfolding add_node add_edge
  open_loop condition = do
    loop_id ← flowing new_id
    e ← flowing (flatten condition)
    loop_head ← add_node (Node.loop_head loop_id e)
    loop_foot ← add_node (Node.loop_foot loop_id)
    back ← add_edge loop_foot loop_head back_edge
    pure (loop_head, loop_foot, loop_id)

  unfoldable mutual
    unfolding flush append_node append_node_index add_node add_edge finish_branch close_loop
        open_loop

    -- The body of `while let`, for one statement.
    pub generate_stmt : Stmt → InternalLoopData → Cursor → GenM (Gen P.Graph) Cursor
    generate_stmt (Ast.expr e) loop_data c = do
      flat ← flowing (flatten e)
      pure (push c (BlockNode.expr flat))
    generate_stmt (Ast.assignment path e) loop_data c = do
      access ← flowing (flatten_path path)
      value ← flowing (flatten e)
      pure (push c (BlockNode.assignment access value))
    generate_stmt (Ast.local_var_decl type_ann x e) loop_data c = do
      var_init ← flowing (flatten e)
      var_id ← flowing new_id
      pure (push c (BlockNode.local_var_decl x var_init))
    generate_stmt Ast.return_stmt loop_data c = do c₁ ← flush c; append_node c₁ (Node.return none)
    generate_stmt (Ast.return_expr e) loop_data c = do
      c₁ ← flush c
      flat ← flowing (flatten e)
      append_node c₁ (Node.return (some flat))
    generate_stmt Ast.break_stmt loop_data c = to_loop bad_break Node.break loop_data c
    generate_stmt Ast.continue_stmt loop_data c = to_loop bad_continue Node.continue loop_data c
    generate_stmt (Ast.while_stmt condition body) loop_data c = do
      c₁ ← flush c
      (loop_head, loop_foot, loop_id) ← open_loop condition
      c₂ ← append_node_index c₁ loop_head
      loop_body ← generate_scoped_block body (some (loop_head, loop_foot, loop_id)) begin
      closed ← close_loop loop_body loop_head loop_foot
      pure (record c₂ { previous = some loop_foot })
    generate_stmt (Ast.if_stmt first_branch branches default) loop_data c = do
      c₁ ← flush c
      (head, foot) ← generate_conditional first_branch loop_data
      c₂ ← append_node_index c₁ head
      stacked ←
          stack_branches branches loop_data (λ h f. stack_default default loop_data h f) head foot
      pure (record c₂ { previous = some foot })

    -- The loop over the instructions, from the given values of its variables on.
    pub generate_scoped_block : Block → InternalLoopData → Cursor → GenM (Gen P.Graph) BranchData
    generate_scoped_block no_stmts loop_data c = do
      c₁ ← flush c
      pure (record { head = c₁.head; foot = c₁.previous })
    generate_scoped_block (and_stmt stmt stmts) loop_data c = do
      c₁ ← generate_stmt stmt loop_data c
      generate_scoped_block stmts loop_data c₁

    -- `generate_branch` with a condition, which gives the head and the foot.
    pub generate_conditional : Branch → InternalLoopData → GenM (Gen P.Graph) (ℕ × ℕ)
    generate_conditional (branch_of condition body) loop_data = do
      branch_graph ← generate_scoped_block body loop_data begin
      finish_branch (some condition) branch_graph

    -- The branches after the first, below the previous head and foot; and what comes after the
    -- last of them, given its head and foot.
    pub stack_branches :
        Branches
        → InternalLoopData
        → (ℕ → ℕ → GenM (Gen P.Graph) (Unit {0}))
        → ℕ
        → ℕ
        → GenM (Gen P.Graph) (Unit {0})
    stack_branches no_branches loop_data last previous_head previous_foot =
        last previous_head previous_foot
    stack_branches (and_branch branch branches) loop_data last previous_head previous_foot = do
      (branch_head, branch_foot) ← generate_conditional branch loop_data
      splits ← add_edge previous_head branch_head on_false
      merges ← add_edge branch_foot previous_foot normal
      stack_branches branches loop_data last branch_head branch_foot

    -- The default branch, if there is one.
    pub stack_default : OptBlock → InternalLoopData → ℕ → ℕ → GenM (Gen P.Graph) (Unit {0})
    stack_default (default_block block) loop_data previous_head previous_foot = do
      else_graph ← generate_scoped_block block loop_data begin
      (else_head, else_foot) ← finish_branch none else_graph
      splits ← add_edge previous_head else_head on_false
      add_edge else_foot previous_foot normal
    stack_default no_block loop_data previous_head previous_foot =
        add_edge previous_head previous_foot on_false

  abbrev pub join : Cursor → BranchData → GenM (Gen P.Graph) Cursor
  join c function_body = elim function_body.head [
    | none ↦ pure c
    | some branch_head ↦ do
      before ← expected c.previous
      linked ← link (some before) branch_head normal
      foot ← expected function_body.foot
      pure (record c { previous = some foot })
  ]

  abbrev pub return_unit : Bool → Cursor → GenM (Gen P.Graph) Cursor
  return_unit true c = append_node c (Node.return none)
  return_unit false c = pure c

  -- `generate` after the nodes of the start and the end are added: whether the function returns the
  -- unit type is its second argument.
  unfoldable pub generate_body : Block → Bool → ℕ → ℕ → GenM (Gen P.Graph) Cursor
  unfolding add_node link append_node append_node_index generate_scoped_block
  generate_body body returns_unit start end = do
    function_body ← generate_scoped_block body none begin
    c ← append_node (record begin { head = some start; previous = some start }) Node.enter_scope
    c₁ ← join c function_body
    c₂ ← return_unit returns_unit c₁
    c₃ ← append_node c₂ Node.exit_scope
    append_node_index c₃ end

  abbrev pub finished :
      Outcome ControlFlowError (ℕ × Gen P.Graph) → Outcome ControlFlowError (Cfg × ExprFlow.State)
  finished panic = panic
  finished (err e) = err e
  finished (ok (start, s)) = ok (cfg_of P s.graph start, s.flow)

  -- The graph of the function; the data that are left hold its anonymous functions.
  unfoldable pub generate :
      Block → Bool → ExprFlow.State → Outcome ControlFlowError (Cfg × ExprFlow.State)
  unfolding add_node generate_body
  generate body returns_unit flow = finished (
      (do
        start ← add_node Node.start
        end ← add_node Node.end
        c ← generate_body body returns_unit start end
        pure start)
        (record { graph = P.new; flow = record flow { anonymous_fns = [] } }))
