-- ===== src/Drawing/Stacking.antt =====
-- The paths on false in smpl/src/analysis/control_flow.rs: the default branch, and the branches that
-- are stacked.
use smpl_mirror.ControlFlow.Checked.{edge-last, edge-then}
use smpl_mirror.Common.{ℕ, Option, none, some, inl, inr, ◌≡◌, refl, ◌∙◌, ◌≤◌, ◌<◌, arith}
use smpl_mirror.Ast.{Block, Branch, Branches, and_branch, no_block, default_block}
use smpl_mirror.TypedAst.{Expr}
use smpl_mirror.ExprFlow
use smpl_mirror.ExprFlow.{M}
use smpl_mirror.ExprFlow.Steps.{Good}
use smpl_mirror.ControlFlow.{on_false, normal}
use smpl_mirror.ControlFlow.Petgraph.{Petgraph}
use smpl_mirror.ControlFlow.Generate.{
  InternalLoopData, begin, Gen, GenM, generate_scoped_block, generate_conditional, stack_branches,
  stack_default,
}
use smpl_mirror.ControlFlow.Checked.{Checked, only-Checked, weaken-Checked}
use smpl_mirror.ByteGen.FirstPass.Tree.{Tree}
use smpl_mirror.Drawing.{draw_default, draw_others}
use smpl_mirror.Drawing.Graphs.{
  Grows-trans, Grows-add_node, Spans, Spans-trans, Spans-narrow, Spans-add_edge, add_edge-Edged,
  add_edge-Linked,
}
use smpl_mirror.Drawing.Tails.{done-Tail, Fragment-Tail}
use smpl_mirror.Drawing.Branching.{
  OpenBranch, BothPaths, close-OpenBranch, move-OpenBranch, BothPaths-Tail,
}
use smpl_mirror.Drawing.Steps.{BlockDrawn, BranchDrawn, graph-then, else-Scoped}

module _ (P : Petgraph) (good_lo : ℕ) where
  -- The path on false is built, and is what is drawn of it.
  pub record Stacked (drawing : M Tree) (lo id : ℕ) (condition : Expr) (h f : ℕ) (t : Tree)
      (s s' : Gen P.Graph) : Type 0 where
    pub path : Tree
    pub draws : drawing s.flow ≡ some (path, s'.flow)
    pub both : BothPaths P lo id condition h f s'.graph t path
    pub same_foot : P.edges s'.graph f ≡ P.edges s.graph f
    pub below : Spans P 0 lo s.graph s'.graph
    pub good : Good good_lo s'.flow
    pub ahead : s.flow.next_id ≤ s'.flow.next_id

  pub split_from :
      {lo id h f : ℕ} {condition : Expr} {g : P.Graph} {t : Tree}
      → OpenBranch P lo id condition h f g t
      → lo ≤ h
  split_from x = omega (arith, x.fragment.few, x.at_split)

  pub no_default-Stacked :
      (in_loop : Option ℕ) {lo id h f : ℕ} {condition : Expr} {t : Tree}
      (loop_data : InternalLoopData) (s : Gen P.Graph)
      → Good good_lo s.flow
      → OpenBranch P lo id condition h f s.graph t
      → Checked
          (λ _ s'. Stacked (draw_default in_loop no_block) lo id condition h f t s s')
          (stack_default P no_block loop_data h f s)
          none
  unfolding stack_default draw_default
  no_default-Stacked in_loop {h = h} {f = f} loop_data s good x =
      let from = split_from x in
      let j = x.at_merge in
      let i = x.inside in
      let y = add_edge-Edged P h f on_false s.graph (omega (arith, i, j)) i in
      let spans =
        Spans-add_edge P {lo = 0} {hi = h} h f on_false s.graph (inr (omega arith))
          (omega (arith, i, j)) i in
      edge-last P h f on_false s (omega (arith, i, j)) i (record {
        path = Tree.done;
        draws = refl;
        both =
            close-OpenBranch P (Spans-narrow P (omega arith) (omega arith) spans) (y.weights h)
              (y.weights f) y.beside (done-Tail P f (omega (arith, from, i, j, y.count))) x;
        same_foot = y.others f (omega (arith, j));
        below = Spans-narrow P (omega arith) from spans;
        good = good;
        ahead = omega arith;
      })

  pub default-Stacked :
      {in_loop : Option ℕ} {lo id h f : ℕ} {condition : Expr} {t : Tree}
      (loop_data : InternalLoopData) (block : Block) (s : Gen P.Graph)
      → OpenBranch P lo id condition h f s.graph t
      → Checked
          (BlockDrawn P good_lo in_loop block s)
          (generate_scoped_block P block loop_data begin s)
          none
      → Checked
          (λ _ s'. Stacked (draw_default in_loop (default_block block)) lo id condition h f t s s')
          (stack_default P (default_block block) loop_data h f s)
          none
  unfolding stack_default draw_default
  default-Stacked {lo = lo} {h = h} {f = f} loop_data block s x built =
      only-Checked built (λ b s₁ d.
        graph-then _ s₁.flow (else-Scoped P good_lo s₁ d.grows.more d.part) (λ (enter, exit) g₂ sc.
          let from = split_from x in
          let j = x.at_merge in
          let i = x.inside in
          let c = P.node_count s.graph in
          let grown : Spans P 0 c s.graph g₂ = Spans-trans P d.grows (
            Spans-trans P
              (Spans-narrow P (omega arith) d.grows.more
                (Grows-trans P (Grows-add_node P _ s₁.graph) (Grows-add_node P _ _)))
              sc.below) in
          let h_to : h < P.node_count g₂ = omega (arith, i, j, grown.more) in
          let enter_to : enter < P.node_count g₂ = sc.fragment.head_to in
          let y = add_edge-Edged P h enter on_false g₂ h_to enter_to in
          let g₃ = P.add_edge h enter on_false g₂ in
          let exit_to : exit < P.node_count g₃ = omega (arith, sc.fragment.foot_to, y.count) in
          let f_to : f < P.node_count g₃ = omega (arith, i, grown.more, y.count) in
          let z = add_edge-Edged P exit f normal g₃ exit_to f_to in
          let late = sc.fragment.foot_from in
          let spans : Spans P 0 h s.graph (P.add_edge exit f normal g₃) =
            Spans-trans P (Spans-narrow P (omega arith) (omega (arith, i, j)) grown) (
              Spans-trans P (Spans-add_edge P h enter on_false g₂ (inr (omega arith)) h_to enter_to)
                (Spans-add_edge P exit f normal g₃ (inr (omega (arith, late, i, j))) exit_to
                  f_to)) in
          let f_is = z.weights f ∙ y.weights f ∙ grown.weights f (omega arith) i in
          edge-then P h enter on_false _ _ h_to enter_to (
            edge-last P exit f normal _ exit_to f_to (record {
              path = d.tree;
              draws = d.draws;
              both =
                  close-OpenBranch P (Spans-narrow P (omega arith) (omega arith) spans)
                    (z.weights h
                      ∙ y.weights h
                      ∙ grown.weights h (omega arith) (omega (arith, i, j)))
                    f_is
                    (λ e p.
                      rw (z.others h (omega (arith, late, i, j)))
                        (y.beside e (grown.edges h (omega arith) (omega (arith, i, j)) ∙ p)))
                    (Fragment-Tail P (omega (arith, from, i, j)) (omega (arith, from, j))
                      (omega (arith, f_to, z.count)) (λ n le lt. omega (arith, le, i)) sc.fragment
                      (add_edge-Linked P exit f normal
                        (Spans-add_edge P h enter on_false g₂ (inl (omega (arith, i, j))) h_to
                          enter_to)
                        late sc.fragment.foot_to f_to)
                      (f_is ∙ x.merge_is) (λ i. refl))
                    x;
              same_foot =
                  z.others f (omega (arith, late, i))
                  ∙ y.others f (omega (arith, j))
                  ∙ grown.edges f (omega arith) i;
              below = Spans-narrow P (omega arith) from spans;
              good = d.good;
              ahead = d.ahead;
            }))))

  -- What comes after the head and the foot of a branch.
  abbrev pub Closes : M Tree → (ℕ → ℕ → GenM (Gen P.Graph) (Unit {0})) → Type 0
  Closes drawing rest =
      (lo id h f : ℕ) (condition : Expr) (t : Tree) (s : Gen P.Graph)
      → Good good_lo s.flow
      → OpenBranch P lo id condition h f s.graph t
      → Checked (λ _ s'. Stacked drawing lo id condition h f t s s') (rest h f s) none

  pub and_branch-Closes :
      {in_loop : Option ℕ} (loop_data : InternalLoopData) (branch : Branch) (others : Branches)
      (last : ℕ → ℕ → GenM (Gen P.Graph) (Unit {0})) (drawing : M Tree)
      → ((s : Gen P.Graph)
          → 0 < P.node_count s.graph
          → Good good_lo s.flow
          → Checked
              (BranchDrawn P good_lo in_loop branch s)
              (generate_conditional P branch loop_data s)
              none)
      → Closes
          (draw_others in_loop others drawing)
          (λ h f. stack_branches P others loop_data last h f)
      → Closes
          (draw_others in_loop (and_branch branch others) drawing)
          (λ h f. stack_branches P (and_branch branch others) loop_data last h f)
  unfolding stack_branches draw_others
  and_branch-Closes loop_data branch others last drawing built next lo id h f condition t s good x =
      only-Checked (built s (omega (arith, x.inside)) good) (λ (h', f') s₁ d.
        let from = split_from x in
        let j = x.at_merge in
        let i = x.inside in
        let c = P.node_count s.graph in
        let o = d.open_branch in
        let from' : c ≤ h' = split_from o in
        let j' = o.at_merge in
        let i' = o.inside in
        let h_to : h < P.node_count s₁.graph = omega (arith, i, j, d.grows.more) in
        let h'_to : h' < P.node_count s₁.graph = omega (arith, i', j') in
        let y = add_edge-Edged P h h' on_false s₁.graph h_to h'_to in
        let g₂ = P.add_edge h h' on_false s₁.graph in
        let f'_to : f' < P.node_count g₂ = omega (arith, i', y.count) in
        let f_to : f < P.node_count g₂ = omega (arith, i, d.grows.more, y.count) in
        let z = add_edge-Edged P f' f normal g₂ f'_to f_to in
        let g₃ = P.add_edge f' f normal g₂ in
        let o₃ =
          move-OpenBranch P
            (Spans-trans P
              (Spans-add_edge P h h' on_false s₁.graph (inl (omega (arith, i, j))) h_to h'_to)
              (Spans-add_edge P f' f normal g₂ (inr (omega arith)) f'_to f_to))
            (z.weights f' ∙ y.weights f') o in
        edge-then P h h' on_false s₁ _ h_to h'_to (
          edge-then P f' f normal _ _ f'_to f_to (
            weaken-Checked
              (next c d.id h' f' d.flat d.tree (record { graph = g₃; flow = s₁.flow }) d.good o₃)
              (λ _ s₄ e.
                let late : c ≤ f' = omega (arith, from', j') in
                let spans : Spans P 0 h s.graph s₄.graph =
                  Spans-trans P (Spans-narrow P (omega arith) (omega (arith, i, j)) d.grows) (
                    Spans-trans P
                      (Spans-add_edge P h h' on_false s₁.graph (inr (omega arith)) h_to h'_to)
                      (Spans-trans P
                        (Spans-add_edge P f' f normal g₂ (inr (omega (arith, late, i, j))) f'_to
                          f_to)
                        (Spans-narrow P (omega arith) (omega (arith, i, j)) e.below))) in
                let kept : (n : ℕ) → n < c → P.weight s₄.graph n ≡ P.weight s.graph n = λ n lt.
                  e.below.weights n (omega arith) lt
                  ∙ z.weights n
                  ∙ y.weights n
                  ∙ d.grows.weights n (omega arith) lt in
                record {
                  path = Tree.branch d.id d.flat d.tree e.path Tree.done;
                  draws = rw (draw_others, ExprFlow.◌>>=◌, d.draws, e.draws) refl;
                  both =
                      close-OpenBranch P (Spans-narrow P (omega arith) (omega arith) spans)
                        (kept h (omega (arith, i, j))) (kept f i)
                        (λ a p.
                          rw
                            (
                              e.below.edges h (omega arith) (omega (arith, i, j)),
                              z.others h (omega (arith, late, i, j)),
                            )
                            (y.beside a (d.grows.edges h (omega arith) (omega (arith, i, j)) ∙ p)))
                        (BothPaths-Tail P (omega (arith, from, i, j)) (omega (arith, i)) i
                          (e.same_foot ∙ z.alone (y.others f' (omega (arith, late, i, j)) ∙ d.bare))
                          e.both)
                        x;
                  same_foot =
                      e.below.edges f (omega arith) i
                      ∙ z.others f (omega (arith, late, i))
                      ∙ y.others f (omega (arith, j))
                      ∙ d.grows.edges f (omega arith) i;
                  below = Spans-narrow P (omega arith) from spans;
                  good = e.good;
                  ahead = omega (arith, d.ahead, e.ahead);
                }))))
