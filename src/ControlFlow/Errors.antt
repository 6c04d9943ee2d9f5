-- ===== src/ControlFlow/Errors.antt =====
-- The `break` and `continue` outside of loops that smpl/src/analysis/control_flow.rs reports, and
-- what is said of a call that may report one or panic.
use smpl_mirror.Common.{
  ℕ, ◌≡◌, refl, Option, none, some, Bool, true, false, Outcome, ok, err, arith, ◌<◌,
}
use smpl_mirror.Ast
use smpl_mirror.Ast.{
  Block, Stmt, Branch, Branches, OptBlock, no_stmts, and_stmt, branch_of, no_branches, and_branch,
  no_block, default_block,
}
use smpl_mirror.ControlFlow.{Edge}
use smpl_mirror.ControlFlow.Petgraph.{Petgraph}
use smpl_mirror.ControlFlow.Generate.{
  ControlFlowError, bad_break, bad_continue, Gen, GenM, and_then, add_edge,
}

abbrev pub first : Option ControlFlowError → Option ControlFlowError → Option ControlFlowError
first none e = e
first (some x) e = some x

pub first_assoc : (a b c : Option ControlFlowError) → first (first a b) c ≡ first a (first b c)
first_assoc none b c = refl
first_assoc (some x) b c = refl

-- The first `break` or `continue` that is not in a loop, of the code that is in a loop or not.
unfoldable mutual
  pub stmt_error : Bool → Stmt → Option ControlFlowError
  stmt_error in_loop Ast.break_stmt = elim in_loop [ true ↦ none | false ↦ some bad_break ]
  stmt_error in_loop Ast.continue_stmt = elim in_loop [ true ↦ none | false ↦ some bad_continue ]
  stmt_error in_loop (Ast.while_stmt condition body) = first_error true body
  stmt_error in_loop (Ast.if_stmt branch branches default) =
      first (branch_error in_loop branch)
        (first (branches_error in_loop branches) (default_error in_loop default))
  stmt_error in_loop _ = none

  pub first_error : Bool → Block → Option ControlFlowError
  first_error in_loop no_stmts = none
  first_error in_loop (and_stmt stmt stmts) =
      first (stmt_error in_loop stmt) (first_error in_loop stmts)

  pub branch_error : Bool → Branch → Option ControlFlowError
  branch_error in_loop (branch_of condition body) = first_error in_loop body

  pub branches_error : Bool → Branches → Option ControlFlowError
  branches_error in_loop no_branches = none
  branches_error in_loop (and_branch branch branches) =
      first (branch_error in_loop branch) (branches_error in_loop branches)

  pub default_error : Bool → OptBlock → Option ControlFlowError
  default_error in_loop no_block = none
  default_error in_loop (default_block block) = first_error in_loop block

-- What a call does, given the error that it should give: it gives that error, or else it answers,
-- and the answer is right.
pub data Checked {S A : Type 0} (Q : A → S → Type 0)
    : Outcome ControlFlowError (A × S) → Option ControlFlowError → Type 0 where
  fails : {x : ControlFlowError} → Checked Q (err x) (some x)
  runs : {a : A} {s : S} → Q a s → Checked Q (ok (a, s)) none

pub then-Checked :
    {S A B : Type 0} {Q : A → S → Type 0} {R : B → S → Type 0}
    {r : Outcome ControlFlowError (A × S)} {f : A → GenM S B} {e e' : Option ControlFlowError}
    → Checked Q r e
    → ((a : A) (s : S) → Q a s → Checked R (f a s) e')
    → Checked R (and_then r f) (first e e')
then-Checked Checked.fails next = Checked.fails
then-Checked (Checked.runs {a = a} {s = s} q) next = next a s q

-- With a rest that gives no error.
pub only-Checked :
    {S A B : Type 0} {Q : A → S → Type 0} {R : B → S → Type 0}
    {r : Outcome ControlFlowError (A × S)} {f : A → GenM S B} {e : Option ControlFlowError}
    → Checked Q r e
    → ((a : A) (s : S) → Q a s → Checked R (f a s) none)
    → Checked R (and_then r f) e
only-Checked Checked.fails next = Checked.fails
only-Checked (Checked.runs {a = a} {s = s} q) next = next a s q

pub weaken-Checked :
    {S A : Type 0} {Q R : A → S → Type 0} {r : Outcome ControlFlowError (A × S)}
    {e : Option ControlFlowError}
    → Checked Q r e
    → ((a : A) (s : S) → Q a s → R a s)
    → Checked R r e
weaken-Checked Checked.fails next = Checked.fails
weaken-Checked (Checked.runs {a = a} {s = s} q) next = Checked.runs (next a s q)

pub add_edge_lem :
    (P : Petgraph) (a b : ℕ) (e : Edge) (s : Gen P.Graph)
    → a < P.node_count s.graph
    → b < P.node_count s.graph
    → add_edge P a b e s ≡ ok (tt, record { graph = P.add_edge a b e s.graph; flow = s.flow })
unfolding add_edge
add_edge_lem P a b e s i j = ground (arith, i, j)

-- An edge between nodes is added.
pub edge-last :
    (P : Petgraph) {R : Unit {0} → Gen P.Graph → Type 0} (a b : ℕ) (e : Edge) (s : Gen P.Graph)
    → a < P.node_count s.graph
    → b < P.node_count s.graph
    → R tt (record { graph = P.add_edge a b e s.graph; flow = s.flow })
    → Checked R (add_edge P a b e s) none
edge-last P a b e s i j r = rw (add_edge_lem P a b e s i j) (Checked.runs r)

pub edge-then :
    (P : Petgraph) {A : Type 0} {R : A → Gen P.Graph → Type 0} (a b : ℕ) (e : Edge)
    (s : Gen P.Graph) (f : Unit {0} → GenM (Gen P.Graph) A)
    → a < P.node_count s.graph
    → b < P.node_count s.graph
    → Checked R (f tt (record { graph = P.add_edge a b e s.graph; flow = s.flow })) none
    → Checked R (and_then (add_edge P a b e s) f) none
edge-then P a b e s f i j next = rw (add_edge_lem P a b e s i j) next
