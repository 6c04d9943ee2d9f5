-- ===== src/Drawing.antt =====
-- The structured code of a function body, drawn from its statements with the ids that
-- smpl/src/analysis/control_flow.rs gives, and that the generated graph is one of that code.
pub mod Graphs
pub mod Fragment
pub mod Tails
pub mod Scopes
pub mod Wrapping
pub mod Looping
pub mod Branching
pub mod Opening
pub mod Steps
pub mod Stacking
pub mod Cursors
pub mod Statements
pub mod Plain
pub mod Blocks
pub mod Whole
pub mod Entry
pub mod Compiled
mod Tests
use smpl_mirror.Common.{ℕ, List, [], ◌∷◌, Option, none, some, ◌≡◌, refl}
use smpl_mirror.Ast
use smpl_mirror.Ast.{
  Block, Stmt, Branch, Branches, OptBlock, no_stmts, and_stmt, branch_of, no_branches, and_branch,
  no_block, default_block,
}
use smpl_mirror.TypedAst.{Expr}
use smpl_mirror.ExprFlow.{M, pure, ◌>>=◌, flatten, flatten_path}
use smpl_mirror.ControlFlow.Generate.{new_id}
use smpl_mirror.ByteGen.FirstPass.Tree.{
  Simple, Tree, decl, assign, expr_stmt, return_stmt, continue_stmt,
}

-- The second tree after the first.
unfoldable pub graft : Tree → Tree → Tree
graft Tree.done rest = rest
graft (Tree.simple s t) rest = Tree.simple s (graft t rest)
graft (Tree.loop id c body t) rest = Tree.loop id c body (graft t rest)
graft (Tree.branch id c on_true on_false t) rest = Tree.branch id c on_true on_false (graft t rest)

abbrev pub one : Simple → Tree
one s = Tree.simple s Tree.done

abbrev refused : {A : Type 0} → M A
refused s = none

-- The statements of the loop with the id, or of no loop. A `break` is not drawn.
unfoldable mutual
  unfolding graft

  pub draw_stmt : Option ℕ → Stmt → M Tree
  draw_stmt in_loop (Ast.expr e) = do flat ← flatten e; pure (one (expr_stmt flat))
  draw_stmt in_loop (Ast.assignment path e) = do
    access ← flatten_path path
    value ← flatten e
    pure (one (assign access value))
  draw_stmt in_loop (Ast.local_var_decl type_ann x e) = do
    var_init ← flatten e
    var_id ← new_id
    pure (one (decl x var_init))
  draw_stmt in_loop Ast.return_stmt = pure (one (return_stmt none))
  draw_stmt in_loop (Ast.return_expr e) = do flat ← flatten e; pure (one (return_stmt (some flat)))
  draw_stmt in_loop Ast.break_stmt = refused
  draw_stmt none Ast.continue_stmt = refused
  draw_stmt (some id) Ast.continue_stmt = pure (one (continue_stmt id))
  draw_stmt in_loop (Ast.while_stmt condition body) = do
    id ← new_id
    flat ← flatten condition
    inner ← draw (some id) body
    pure (Tree.loop id flat inner Tree.done)
  draw_stmt in_loop (Ast.if_stmt branch others default) = do
    (id, flat, true_path) ← draw_branch in_loop branch
    false_path ← draw_others in_loop others (draw_default in_loop default)
    pure (Tree.branch id flat true_path false_path Tree.done)

  pub draw : Option ℕ → Block → M Tree
  draw in_loop no_stmts = pure Tree.done
  draw in_loop (and_stmt stmt stmts) = do
    t ← draw_stmt in_loop stmt
    rest ← draw in_loop stmts
    pure (graft t rest)

  pub draw_branch : Option ℕ → Branch → M (ℕ × Expr × Tree)
  draw_branch in_loop (branch_of condition body) = do
    t ← draw in_loop body
    id ← new_id
    flat ← flatten condition
    pure (id, flat, t)

  pub draw_others : Option ℕ → Branches → M Tree → M Tree
  draw_others in_loop no_branches last = last
  draw_others in_loop (and_branch branch others) last = do
    (id, flat, true_path) ← draw_branch in_loop branch
    false_path ← draw_others in_loop others last
    pure (Tree.branch id flat true_path false_path Tree.done)

  pub draw_default : Option ℕ → OptBlock → M Tree
  draw_default in_loop no_block = pure Tree.done
  draw_default in_loop (default_block block) = draw in_loop block

-- No `break`, and a `continue` in loops only.
unfoldable mutual
  pub IsPlainStmt : Option ℕ → Stmt → Type 0
  IsPlainStmt in_loop Ast.break_stmt = ⊥
  IsPlainStmt none Ast.continue_stmt = ⊥
  IsPlainStmt in_loop (Ast.while_stmt condition body) = (id : ℕ) → IsPlain (some id) body
  IsPlainStmt in_loop (Ast.if_stmt branch others default) =
      IsPlainBranch in_loop branch × ArePlain in_loop others × IsPlainDefault in_loop default
  IsPlainStmt in_loop _ = Unit

  pub IsPlain : Option ℕ → Block → Type 0
  IsPlain in_loop no_stmts = Unit
  IsPlain in_loop (and_stmt stmt stmts) = IsPlainStmt in_loop stmt × IsPlain in_loop stmts

  pub IsPlainBranch : Option ℕ → Branch → Type 0
  IsPlainBranch in_loop (branch_of condition body) = IsPlain in_loop body

  pub ArePlain : Option ℕ → Branches → Type 0
  ArePlain in_loop no_branches = Unit
  ArePlain in_loop (and_branch branch others) =
      IsPlainBranch in_loop branch × ArePlain in_loop others

  pub IsPlainDefault : Option ℕ → OptBlock → Type 0
  IsPlainDefault in_loop no_block = Unit
  IsPlainDefault in_loop (default_block block) = IsPlain in_loop block

pub graft_assoc : (a b c : Tree) → graft (graft a b) c ≡ graft a (graft b c)
unfolding graft
graft_assoc Tree.done b c = refl
graft_assoc (Tree.simple s t) b c = rw (graft_assoc t b c) refl
graft_assoc (Tree.loop id e body t) b c = rw (graft_assoc t b c) refl
graft_assoc (Tree.branch id e on_true on_false t) b c = rw (graft_assoc t b c) refl

pub graft-done : (t : Tree) → graft t Tree.done ≡ t
unfolding graft
graft-done Tree.done = refl
graft-done (Tree.simple s t) = rw (graft-done t) refl
graft-done (Tree.loop id e body t) = rw (graft-done t) refl
graft-done (Tree.branch id e on_true on_false t) = rw (graft-done t) refl
