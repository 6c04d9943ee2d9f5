-- ===== src/ByteGen/FirstPass/Visits.antt =====
-- Turns of the walks of smpl/src/analysis/linear_cfg_traversal.rs, and visits of blocks, loops and
-- branches with the first pass as passenger.
use mathlib.Core.Path.{subst}
use smpl_mirror.Common.{
  ℕ, suc, ◌+◌, ◌-◌, ◌<◌, ◌≡◌, refl, sym, List, [], ◌∷◌, none, some, false, Outcome, ok, ◌>>=◌,
  arith, unwrapped,
}
use smpl_mirror.Common.Options.{>>=-eq-some}
use smpl_mirror.TypedAst.{Expr}
use smpl_mirror.ControlFlow.{
  Cfg, Node, BlockNode, Edge, on_true, on_false, next, after_loop_foot, after_conditional,
  after_return, after_continue, first_other, branches_of, second_or_other, is_own_head,
}
use smpl_mirror.ControlFlow
use smpl_mirror.Traversal.{
  Walked, Visit, Finish, walk_until, at_foot, at_merge_true, at_merge_false, visit_block,
  visit_with, visit_node,
}
use smpl_mirror.ByteGen.FirstPass.{
  FirstPass, loop_head, local_var_decl, assignment, expr, branch_split, branch_merge,
  branch_start_path, branch_end_path, set_false_branch,
}
use smpl_mirror.ByteGen.FirstPass.Tree.{Tree, perform}
use smpl_mirror.ByteGen.FirstPass.Riding.{
  rider, block_tree, Fork, next_lem, Fork-head, Fork-split, Fork-foot,
}

module _ {E : Type 0} (g : Cfg) where
  pub walk-on :
      (finish : Finish E FirstPass) (visit : Visit E FirstPass) (n m k r stop : ℕ) (w : Node)
      (p p₁ p' : FirstPass)
      → g.weight n ≡ some w
      → finish n w ≡ none
      → visit n p ≡ ok (some m, p₁)
      → walk_until g rider finish visit (k + r) m p₁ ≡ walk_until g rider finish visit r stop p'
      → walk_until g rider finish visit (suc k + r) n p ≡ walk_until g rider finish visit r stop p'
  unfolding walk_until
  walk-on finish visit n m k r stop w p p₁ p' a b c d =
      let turns : suc k + r ≡ suc (k + r) = omega arith in rw (turns, a, b, c, d)

  pub visit_block_lem :
      (n : ℕ) (bs : List BlockNode) (rest : Tree) (p p' : FirstPass)
      → perform (block_tree bs rest) p ≡ some p'
      → (p₁ : FirstPass) × (visit_block {E = E} g rider n bs p ≡ ok p₁)
        × (perform rest p₁ ≡ some p')
  unfolding visit_block perform
  visit_block_lem n [] rest p p' h = (p, refl, h)
  visit_block_lem n (ControlFlow.local_var_decl x e ∷ bs) rest p p' h =
      let (p₁, a, b) = >>=-eq-some (local_var_decl p x e) _ h in
      let (p₂, c, d) = visit_block_lem n bs rest p₁ p' b in (p₂, rw (a, c), d)
  visit_block_lem n (ControlFlow.assignment path e ∷ bs) rest p p' h =
      let (p₁, a, b) = >>=-eq-some (assignment p path e) _ h in
      let (p₂, c, d) = visit_block_lem n bs rest p₁ p' b in (p₂, rw (a, c), d)
  visit_block_lem n (ControlFlow.expr e ∷ bs) rest p p' h =
      let (p₁, a, b) = >>=-eq-some (expr p e) _ h in
      let (p₂, c, d) = visit_block_lem n bs rest p₁ p' b in (p₂, rw (a, c), d)

  -- A walk that comes to a node where it stops, in time.
  pub walk-to :
      (finish : Finish E FirstPass) (visit : Visit E FirstPass) (n stop k count : ℕ) (w : Node)
      (last : FirstPass → Outcome E FirstPass) (p p' p'' : FirstPass)
      → k < count
      → ((r : ℕ)
          → walk_until g rider finish visit (k + r) n p ≡ walk_until g rider finish visit r stop p')
      → g.weight stop ≡ some w
      → finish stop w ≡ some last
      → last p' ≡ ok p''
      → walk_until g rider finish visit count n p ≡ ok (Walked.found stop p'')
  unfolding walk_until
  walk-to finish visit n stop k count w last p p' p'' small walks a b c =
      let turns : count ≡ k + suc (count - suc k) = omega arith in
      subst (λ i. walk_until g rider finish visit i n p ≡ ok (Walked.found stop p'')) (sym turns)
        (rw (walks (suc (count - suc k)), a, b, c))

  pub visit_loop :
      (fuel n t foot m id : ℕ) (condition : Expr) {w : Node} {e e' : Edge} (p p₁ p₃ : FirstPass)
      → g.weight n ≡ some (Node.loop_head id condition)
      → Fork g n (on_true, t) (on_false, foot)
      → g.weight foot ≡ some (Node.loop_foot id)
      → Fork g foot (e, n) (e', m)
      → g.weight m ≡ some w
      → is_own_head id w ≡ false
      → loop_head p id condition ≡ some p₁
      → walk_until {E = E} g rider (at_foot g rider) (visit_node g rider fuel) g.node_count t p₁
        ≡ ok (Walked.found foot p₃)
      → visit_node {E = E} g rider (suc fuel) n p ≡ ok (some m, p₃)
  unfolding visit_node visit_with
  visit_loop fuel n t foot m id condition p p₁ p₃ w fork at_end fork' a c h walked = rw (
    w,
    h,
    Fork-head {E = E} g n t foot id w fork,
    walked,
    at_end,
    Fork-foot {E = E} g n foot m id at_end w a c fork',
  )

  pub merge_last :
      (merge id : ℕ) (p₆ p₇ p₈ : FirstPass)
      → branch_end_path p₆ set_false_branch ≡ some p₇
      → branch_merge p₇ id ≡ some p₈
      → (unwrapped {E = E} (branch_end_path p₆ set_false_branch) >>= λ p.
          unwrapped (branch_merge p id))
        ≡ ok p₈
  merge_last merge id p₆ p₇ p₈ h h' = rw (h, h')

  pub visit_branch :
      (fuel n t f merge m id : ℕ) (condition : Expr) {e : Edge} (p p₁ p₂ p₄ p₅ p₈ : FirstPass)
      → g.weight n ≡ some (Node.branch_split id condition)
      → Fork g n (on_true, t) (on_false, f)
      → g.edges merge ≡ (e, m) ∷ []
      → branch_split p id condition ≡ some p₁
      → branch_start_path p₁ ≡ some p₂
      → walk_until {E = E} g rider
          (at_merge_true g rider)
          (visit_node g rider fuel)
          g.node_count
          t
          p₂
        ≡ ok (Walked.found merge p₄)
      → branch_start_path p₄ ≡ some p₅
      → walk_until {E = E} g rider
          (at_merge_false g rider)
          (visit_node g rider fuel)
          g.node_count
          f
          p₅
        ≡ ok (Walked.found merge p₈)
      → visit_node {E = E} g rider (suc fuel) n p ≡ ok (some m, p₈)
  unfolding visit_node visit_with
  visit_branch fuel n t f merge m id condition p p₁ p₂ p₄ p₅ p₈ w fork e h h' walked h'' walked' =
      rw (
        w,
        h,
        Fork-split {E = E} g n t f id w fork,
        h',
        walked,
        h'',
        walked',
        next_lem {E = E} g merge m e,
      )
