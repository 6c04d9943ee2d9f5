-- ===== src/ByteGen/FirstPass/Built.antt =====
-- What the traversal of a tree does to the pass of smpl/src/code_gen/byte_gen/first_pass.rs, as a
-- record, and for simple statements.
use smpl_mirror.Common.{ℕ, List, ◌∷◌, ◌++◌, append_assoc, ◌≡◌, Option, none, some}
use smpl_mirror.Common.Options.{>>=-eq-some, some_inj}
use smpl_mirror.ByteGen.ByteExpr.{TypingContext, translate_expr, translate_path}
use smpl_mirror.ByteGen.Partial.{LoopFrame, BranchFrame}
use smpl_mirror.ByteGen.SecondPass.{SecondPass}
use smpl_mirror.ByteGen.FirstPass.{
  State, local_var_decl, assignment, expr, ret, cont, br, extend_current_frame, value_of,
}
use smpl_mirror.ByteGen.FirstPass.Tree.{
  Simple, Tree, visit_simple, perform, simple_code, Builds, decl, assign, expr_stmt, return_stmt,
  continue_stmt, break_stmt,
}
use smpl_mirror.ByteGen.FirstPass.Ids.{Agree, Same}
use smpl_mirror.ByteGen.FirstPass.Frames.{Code, pass_at}

abbrev pub Loops : Type 0
Loops = List (ℕ × LoopFrame)

abbrev pub Branches : Type 0
Branches = List (ℕ × BranchFrame)

-- The traversal of the tree goes from these frames to the frames of its code, which it appends to
-- the frame on the top.
pub record Built (ty : TypingContext) (lo hi : ℕ) (tree : Tree) (loops : Loops)
    (branches : Branches) : Type 0 where
  pub loops' : Loops
  pub branches' : Branches
  pub code : Code
  pub runs :
      (f : Code) (fs : List Code) (ss : List State)
      → perform tree (pass_at ty none loops branches (f ∷ fs) ss)
        ≡ some (pass_at ty none loops' branches' ((f ++ code) ∷ fs) ss)
  pub same_loops : Same lo hi loops loops'
  pub same_branches : Same lo hi branches branches'
  pub builds :
      (sp : SecondPass)
      → Agree lo hi loops' sp.loops
      → Agree lo hi branches' sp.branches
      → Builds ty sp tree code

pub visit_simple_lem :
    (ty : TypingContext) (s : Simple) {code : Code} {loops : Loops} {branches : Branches}
    → simple_code ty s ≡ some code
    → (ins : Option Code) (f : Code) (fs : List Code) (ss : List State)
    → visit_simple s (pass_at ty ins loops branches (f ∷ fs) ss)
      ≡ some (pass_at ty ins loops branches ((f ++ code) ∷ fs) ss)
unfolding local_var_decl assignment expr ret cont br extend_current_frame simple_code
visit_simple_lem ty (decl x e) p ins f fs ss =
    let ((c, value), q, u) = >>=-eq-some (value_of ty e) _ p in
    rw (q, ← some_inj u, append_assoc f c)
visit_simple_lem ty (assign path e) p ins f fs ss =
    let ((c, value), q, u) = >>=-eq-some (value_of ty e) _ p in
    let ((access, location), v, w) = >>=-eq-some (translate_path ty path) _ u in
    rw (q, v, ← some_inj w, append_assoc (f ++ c), append_assoc f c)
visit_simple_lem ty (expr_stmt e) p ins f fs ss =
    let (is, q, u) = >>=-eq-some (translate_expr ty e) _ p in rw (q, ← some_inj u)
visit_simple_lem ty (return_stmt none) p ins f fs ss = rw (← some_inj p)
visit_simple_lem ty (return_stmt (some e)) p ins f fs ss =
    let ((c, value), q, u) = >>=-eq-some (value_of ty e) _ p in
    rw (q, ← some_inj u, append_assoc f c)
visit_simple_lem ty (continue_stmt id) p ins f fs ss = rw (← some_inj p)
visit_simple_lem ty (break_stmt id) p ins f fs ss = rw (← some_inj p)
