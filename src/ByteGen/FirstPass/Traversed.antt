-- ===== src/ByteGen/FirstPass/Traversed.antt =====
-- The walks of the traversal through the graph of structured code
-- (smpl/src/analysis/linear_cfg_traversal.rs with first_pass.rs).
use smpl_mirror.Common.{ℕ, zero, suc, ◌+◌, ◌≤◌, ◌≡◌, refl, List, [], ◌∷◌, none, some, arith}
use smpl_mirror.Common.Options.{>>=-eq-some, some_inj}
use smpl_mirror.ControlFlow.{
  Cfg, Node, BlockNode, Edge, on_true, on_false, next, after_loop_foot, after_conditional,
  after_return, after_continue, first_other, branches_of, second_or_other, is_own_head,
}
use smpl_mirror.ControlFlow
use smpl_mirror.Traversal.{
  Finish, walk_until, at_foot, at_merge_true, at_merge_false, visit_with, visit_node,
}
use smpl_mirror.ByteGen.FirstPass.{
  FirstPass, loop_head, loop_foot, cont, ret, branch_split, branch_merge, branch_start_path,
  branch_end_path, set_true_branch, set_false_branch,
}
use smpl_mirror.ByteGen.FirstPass.Tree.{Tree, perform}
use smpl_mirror.ByteGen.FirstPass.Whole.{marks}
use smpl_mirror.ByteGen.FirstPass.Riding.{
  rider, block_tree, Laid, next_lem, after_return_lem, after_continue_lem,
}
use smpl_mirror.ByteGen.FirstPass.Visits.{
  walk-on, visit_block_lem, walk-to, visit_loop, merge_last, visit_branch,
}

-- A node that a walk visits wherever it stops.
abbrev Inner : Node → Type 0
Inner (ControlFlow.loop_foot id) = ⊥
Inner (ControlFlow.branch_merge id) = ⊥
Inner _ = Unit

-- The walk does not stop at such a node.
abbrev Passes : {E : Type 0} → Finish E FirstPass → Type 0
Passes finish = (n : ℕ) (w : Node) → Inner w → finish n w ≡ none

marks_block : (bs : List BlockNode) (rest : Tree) → marks (block_tree bs rest) ≡ marks rest
unfolding marks
marks_block [] rest = refl
marks_block (b ∷ bs) rest = marks_block bs rest

module _ {E : Type 0} (g : Cfg) where
  at_foot-Passes : Passes (at_foot {E = E} g rider)
  at_foot-Passes n w i = ground arith

  at_merge_true-Passes : Passes (at_merge_true {E = E} g rider)
  at_merge_true-Passes n w i = ground arith

  at_merge_false-Passes : Passes (at_merge_false {E = E} g rider)
  at_merge_false-Passes n w i = ground arith

  pub walk-Laid :
      (fuel : ℕ) {tree : Tree} {n stop k : ℕ} (finish : Finish E FirstPass) (r : ℕ)
      (p p' : FirstPass)
      → Laid g tree n stop k
      → marks tree ≤ fuel
      → Passes finish
      → perform tree p ≡ some p'
      → walk_until g rider finish (visit_node g rider (suc fuel)) (k + r) n p
        ≡ walk_until g rider finish (visit_node g rider (suc fuel)) r stop p'
  unfolding perform marks visit_node visit_with
  walk-Laid fuel finish r p p' Laid.done few passes h =
      let turns : 0 + r ≡ r = omega arith in rw (turns, some_inj h)
  walk-Laid fuel {n = n} {stop = stop} finish r p p' (Laid.enter {m = m} {k = k} w e l) few passes
        h =
      walk-on {E = E} g finish _ n m k r stop _ p p p' w (passes n _ tt)
        (rw (w, next_lem {E = E} g n m e)) (walk-Laid fuel finish r p p' l few passes h)
  walk-Laid fuel {n = n} {stop = stop} finish r p p' (Laid.exit {m = m} {k = k} w e l) few passes
        h =
      walk-on {E = E} g finish _ n m k r stop _ p p p' w (passes n _ tt)
        (rw (w, next_lem {E = E} g n m e)) (walk-Laid fuel finish r p p' l few passes h)
  walk-Laid fuel {n = n} {stop = stop} finish r p p'
        (Laid.block {m = m} {k = k} {bs = bs} {rest = rest} w e l) few passes h =
      let (p₁, a, b) = visit_block_lem {E = E} g n bs rest p p' h in
      walk-on {E = E} g finish _ n m k r stop _ p p₁ p' w (passes n _ tt)
        (rw (w, a, next_lem {E = E} g n m e))
        (walk-Laid fuel finish r p₁ p' l (rw (← marks_block bs rest) few) passes b)
  walk-Laid fuel {n = n} {stop = stop} finish r p p'
        (Laid.return {m = m} {k = k} {value = value} w e l) few passes h =
      let (p₁, a, b) = >>=-eq-some (ret p value) _ h in
      walk-on {E = E} g finish _ n m k r stop _ p p₁ p' w (passes n _ tt)
        (rw (w, a, after_return_lem {E = E} g n m w e))
        (walk-Laid fuel finish r p₁ p' l few passes b)
  walk-Laid fuel {n = n} {stop = stop} finish r p p' (Laid.continue {m = m} {k = k} {id = id} w e l)
        few passes h =
      let (p₁, a, b) = >>=-eq-some (cont p id) _ h in
      walk-on {E = E} g finish _ n m k r stop _ p p₁ p' w (passes n _ tt)
        (rw (w, a, after_continue_lem {E = E} g n m id w e))
        (walk-Laid fuel finish r p₁ p' l few passes b)
  walk-Laid zero finish r p p' (Laid.loop w fork b small foot fork' a c l) few passes h =
      absurd (omega arith)
  walk-Laid (suc fuel) {n = n} {stop = stop} finish r p p'
        (Laid.loop {t = t} {foot = foot_at} {m = m} {k = k} {k' = k'} {id = id}
          {condition = condition} {body = body} w fork b small foot fork' a c l)
        few passes h =
      let (p₁, h₁, q₁) = >>=-eq-some (loop_head p id condition) _ h in
      let (p₂, h₂, q₂) = >>=-eq-some (perform body p₁) _ q₁ in
      let (p₃, h₃, q₃) = >>=-eq-some (loop_foot p₂ id) _ q₂ in
      let body_walk =
        walk-to {E = E} g (at_foot g rider) (visit_node g rider (suc fuel)) t foot_at k'
          g.node_count _ _ p₁ p₂ p₃ small
          (λ i. walk-Laid fuel (at_foot g rider) i p₁ p₂ b (omega arith) at_foot-Passes h₂) foot
          refl (rw h₃) in
      walk-on {E = E} g finish _ n m k r stop _ p p₃ p' w (passes n _ tt)
        (visit_loop {E = E} g (suc fuel) n t foot_at m id condition p p₁ p₃ w fork foot fork' a c h₁
          body_walk)
        (walk-Laid (suc fuel) finish r p₃ p' l (omega arith) passes q₃)
  walk-Laid zero finish r p p' (Laid.branch w fork t small f small' merge e l) few passes h =
      absurd (omega arith)
  walk-Laid (suc fuel) {n = n} {stop = stop} finish r p p'
        (Laid.branch {t = t_at} {f = f_at} {merge = merge_at} {m = m} {k = k} {k' = k'} {k'' = k''}
          {id = id} {condition = condition} {true_path = true_path} {false_path = false_path} w fork
          t small f small' merge e l)
        few passes h =
      let (p₁, h₁, q₁) = >>=-eq-some (branch_split p id condition) _ h in
      let (p₂, h₂, q₂) = >>=-eq-some (branch_start_path p₁) _ q₁ in
      let (p₃, h₃, q₃) = >>=-eq-some (perform true_path p₂) _ q₂ in
      let (p₄, h₄, q₄) = >>=-eq-some (branch_end_path p₃ set_true_branch) _ q₃ in
      let (p₅, h₅, q₅) = >>=-eq-some (branch_start_path p₄) _ q₄ in
      let (p₆, h₆, q₆) = >>=-eq-some (perform false_path p₅) _ q₅ in
      let (p₇, h₇, q₇) = >>=-eq-some (branch_end_path p₆ set_false_branch) _ q₆ in
      let (p₈, h₈, q₈) = >>=-eq-some (branch_merge p₇ id) _ q₇ in
      let true_walk =
        walk-to {E = E} g (at_merge_true g rider) (visit_node g rider (suc fuel)) t_at merge_at k'
          g.node_count _ _ p₂ p₃ p₄ small
          (λ i.
            walk-Laid fuel (at_merge_true g rider) i p₂ p₃ t (omega arith) at_merge_true-Passes h₃)
          merge refl (rw h₄) in
      let false_walk =
        walk-to {E = E} g (at_merge_false g rider) (visit_node g rider (suc fuel)) f_at merge_at k''
          g.node_count _ _ p₅ p₆ p₈ small'
          (λ i.
            walk-Laid fuel (at_merge_false g rider) i p₅ p₆ f (omega arith) at_merge_false-Passes
              h₆)
          merge refl (merge_last {E = E} g merge_at id p₆ p₇ p₈ h₇ h₈) in
      walk-on {E = E} g finish _ n m k r stop _ p p₈ p' w (passes n _ tt)
        (visit_branch {E = E} g (suc fuel) n t_at f_at merge_at m id condition p p₁ p₂ p₄ p₅ p₈ w
          fork e h₁ h₂ true_walk h₅ false_walk)
        (walk-Laid (suc fuel) finish r p₈ p' l (omega arith) passes q₈)
