-- ===== src/Drawing/Looping.antt =====
-- A `while` of smpl/src/analysis/control_flow.rs: the nodes of the loop, and the edges that close
-- it.
use smpl_mirror.ControlFlow.Checked.{edge-last, edge-then}
use smpl_mirror.Common.{
  ℕ, suc, [], ◌∷◌, Option, none, some, ◌⊎◌, inl, inr, ◌≡◌, ◌≢◌, refl, ◌∙◌, ◌≤◌, ◌<◌, arith,
}
use smpl_mirror.TypedAst.{Expr}
use smpl_mirror.ControlFlow.{Node, normal, on_true, on_false, back_edge}
use smpl_mirror.ControlFlow.Petgraph.{Petgraph}
use smpl_mirror.ControlFlow.Generate.{Gen, close_loop, add_node}
use smpl_mirror.ControlFlow.Checked.{Checked}
use smpl_mirror.ByteGen.FirstPass.Tree.{Tree}
use smpl_mirror.Drawing.Graphs.{
  Spans, Spans-refl, Spans-trans, Spans-narrow, Grows-add_node, Grows-trans, Spans-add_edge,
  add_edge-Edged, add_edge-Linked,
}
use smpl_mirror.Drawing.Fragment.{Fragment, Part}
use smpl_mirror.Drawing.Tails.{done-Tail, Fragment-Tail, loop-Fragment}
use smpl_mirror.Drawing.Wrapping.{
  Ends, with_ends, with_ends-Ends, add_edge-Ends, Scoped, span-Scoped,
}

swap : {A B : Type 0} → A ⊎ B → B ⊎ A
swap (inl a) = inr a
swap (inr b) = inl b

module _ (P : Petgraph) where
  -- The head and the foot of a loop that is not closed yet.
  pub record LoopNodes (head foot id : ℕ) (condition : Expr) (g : P.Graph) : Type 0 where
    pub after : foot ≡ suc head
    pub inside : foot < P.node_count g
    pub is : P.weight g head ≡ some (Node.loop_head id condition)
    pub foot_is : P.weight g foot ≡ some (Node.loop_foot id)
    pub bare : P.edges g head ≡ []
    pub back : P.edges g foot ≡ (back_edge, head) ∷ []

  pub LoopNodes-Spans :
      {head foot id : ℕ} {condition : Expr} {g g' : P.Graph}
      → LoopNodes head foot id condition g
      → Spans P 0 (P.node_count g) g g'
      → LoopNodes head foot id condition g'
  LoopNodes-Spans {head = head} {foot = foot} x s =
      let i = x.inside in
      let j = x.after in
      record {
        after = x.after;
        inside = omega (arith, i, s.more);
        is = s.weights head (omega arith) (omega (arith, i, j)) ∙ x.is;
        foot_is = s.weights foot (omega arith) i ∙ x.foot_is;
        bare = s.edges head (omega arith) (omega (arith, i, j)) ∙ x.bare;
        back = s.edges foot (omega arith) i ∙ x.back;
      }

  -- The loop is closed.
  pub record Closed (first ids head foot id : ℕ) (condition : Expr) (g g' : P.Graph) (t : Tree)
      : Type 0 where
    pub fragment : Fragment P head first g' ids head foot (Tree.loop id condition t Tree.done)
    pub below : Spans P 0 head g g'

  module _ {first ids head foot id : ℕ} {condition : Expr} {g : P.Graph}
      (x : LoopNodes head foot id condition g) (some_before : 0 < head) (new : first ≤ id)
      (old : id < ids) where
    empty-Closed :
        Closed first ids head foot id condition g
          (P.add_edge head foot on_true (P.add_edge head foot on_false g))
          Tree.done
    empty-Closed =
        let i = x.inside in
        let j = x.after in
        let g₁ = P.add_edge head foot on_false g in
        let head_to : head < P.node_count g = omega (arith, i, j) in
        let y = add_edge-Edged P head foot on_false g head_to i in
        let z =
          add_edge-Edged P head foot on_true g₁ (omega (arith, head_to, y.count))
            (omega (arith, i, y.count)) in
        record {
          fragment =
              loop-Fragment P (omega arith) (omega (arith, j)) (omega (arith, j))
                (omega (arith, i, y.count, z.count)) (omega (arith, head_to, y.count, z.count)) new
                old (z.weights head ∙ y.weights head ∙ x.is)
                (swap (z.beside (on_false, foot) (y.alone x.bare)))
                (z.weights foot ∙ y.weights foot ∙ x.foot_is)
                (z.others foot (omega (arith, j)) ∙ y.others foot (omega (arith, j)) ∙ x.back)
                (done-Tail P foot (omega (arith, head_to, y.count, z.count))) some_before;
          below =
              Spans-trans P (Spans-add_edge P head foot on_false g (inr (omega arith)) head_to i) (
                Spans-add_edge P head foot on_true g₁ (inr (omega arith))
                  (omega (arith, head_to, y.count)) (omega (arith, i, y.count)));
        }

    span-Closed :
        {lo first' h p : ℕ} {ids' : ℕ} {t : Tree}
        → lo ≡ suc foot
        → Fragment P lo first' g ids' h p t
        → (enter exit : ℕ) → enter ≡ P.node_count (P.add_edge head foot on_false g)
        → exit ≡ P.node_count (P.add_node Node.enter_scope (P.add_edge head foot on_false g))
        → Closed first ids head foot id condition g
            (P.add_edge exit foot normal (
              P.add_edge p exit normal (
                P.add_edge enter h normal
                  (P.add_edge head enter on_true (with_ends P (P.add_edge head foot on_false g))))))
            t
    span-Closed {lo = lo} {h = h} {p = p} {ids' = ids'} {t = t} at_lo f enter exit at_enter
          at_exit =
        let i = x.inside in
        let j = x.after in
        let head_to : head < P.node_count g = omega (arith, i, j) in
        let lo_to : lo ≤ P.node_count g = omega (arith, f.few) in
        let g₁ = P.add_edge head foot on_false g in
        let y = add_edge-Edged P head foot on_false g head_to i in
        let span₁ =
          Spans-add_edge P {lo = lo} {hi = P.node_count g} head foot on_false g
            (inl (omega (arith, at_lo, j))) head_to i in
        let g₂ = with_ends P g₁ in
        let ends₂ : Ends P lo g g₂ enter exit =
          rw (at_enter, at_exit) (with_ends-Ends P g₁ span₁ y.count) in
        let on =
          Grows-trans P (Grows-add_node P Node.enter_scope g₁)
            (Grows-add_node P Node.exit_scope _) in
        let head_to₂ : head < P.node_count g₂ = omega (arith, head_to, y.count, on.more) in
        let enter_to : enter < P.node_count g₂ = omega (arith, ends₂.count, ends₂.at_exit) in
        let g₃ = P.add_edge head enter on_true g₂ in
        let y₃ = add_edge-Edged P head enter on_true g₂ head_to₂ enter_to in
        let ends₃ =
          add_edge-Ends P head enter on_true g₂ lo_to (omega (arith, at_lo, j)) enter_to ends₂ in
        let sc : Scoped P lo 0 ids' g₃ _ enter exit t = span-Scoped P lo_to g₃ f ends₃ in
        let g₄ = P.add_edge p exit normal (P.add_edge enter h normal g₃) in
        let exit_to : exit < P.node_count g₄ = omega (arith, sc.count, ends₃.count) in
        let foot_to : foot < P.node_count g₄ =
          omega (arith, sc.count, y₃.count, on.more, y.count, i) in
        let g₅ = P.add_edge exit foot normal g₄ in
        let z = add_edge-Edged P exit foot normal g₄ exit_to foot_to in
        let out : exit ≢ head = omega (arith, ends₂.at_exit, ends₂.at_enter, head_to) in
        let out' : exit ≢ foot = omega (arith, ends₂.at_exit, ends₂.at_enter, i) in
        let weights : (n : ℕ) → n < lo → P.weight g₅ n ≡ P.weight g n = λ n to.
          z.weights n
          ∙ sc.below.weights n (omega arith) to
          ∙ y₃.weights n
          ∙ on.weights n (omega arith) (omega (arith, to, lo_to, y.count))
          ∙ y.weights n in
        let head_in : head < lo = omega (arith, at_lo, j) in
        let foot_in : foot < lo = omega (arith, at_lo) in
        let g₂_head : P.edges g₂ head ≡ (on_false, foot) ∷ [] =
          on.edges head (omega arith) (omega (arith, head_to, y.count)) ∙ y.alone x.bare in
        let g₅_head : P.edges g₅ head ≡ P.edges g₃ head =
          z.others head (omega (arith, out)) ∙ sc.below.edges head (omega arith) head_in in
        let g₅_foot : P.edges g₅ foot ≡ P.edges g foot =
          z.others foot (omega (arith, out'))
          ∙ sc.below.edges foot (omega arith) foot_in
          ∙ y₃.others foot (omega (arith, j))
          ∙ on.edges foot (omega arith) (omega (arith, i, y.count))
          ∙ y.others foot (omega (arith, j)) in
        record {
          fragment =
              loop-Fragment P (omega arith) (omega (arith, j)) (omega (arith, j))
                (omega (arith, foot_to, z.count)) (omega (arith, foot_to, z.count, j)) new old
                (weights head head_in ∙ x.is)
                (rw g₅_head (swap (y₃.beside (on_false, foot) g₂_head)))
                (weights foot foot_in ∙ x.foot_is) (g₅_foot ∙ x.back)
                (Fragment-Tail P (omega (arith, head_in)) (omega (arith, j))
                  (omega (arith, foot_to, z.count)) (λ n h h'. omega (arith, h, foot_in))
                  sc.fragment
                  (add_edge-Linked P exit foot normal (Spans-refl P lo _ g₄) sc.fragment.foot_from
                    exit_to foot_to)
                  (weights foot foot_in ∙ x.foot_is) (λ id. refl))
                some_before;
          below =
              Spans-trans P (Spans-add_edge P head foot on_false g (inr (omega arith)) head_to i) (
                Spans-trans P (Spans-narrow P (omega arith) (omega (arith, head_to, y.count)) on) (
                  Spans-trans P
                    (Spans-add_edge P head enter on_true g₂ (inr (omega arith)) head_to₂ enter_to)
                    (Spans-trans P (Spans-narrow P (omega arith) (omega (arith, head_in)) sc.below)
                      (Spans-add_edge P exit foot normal g₄
                        (inr (omega (arith, head_in, sc.fragment.foot_from))) exit_to foot_to))));
        }

    -- The end of the loop in the code.
    pub close_loop-Closed :
        {lo first' ids' : ℕ} {h p : Option ℕ} {t : Tree} (s : Gen P.Graph)
        → s.graph ≡ g
        → lo ≡ suc foot
        → Part P lo first' g ids' h p t
        → Checked
            (λ _ s'. Closed first ids head foot id condition g s'.graph t × (s'.flow ≡ s.flow))
            (close_loop P (record { head = h; foot = p }) head foot s)
            none
    unfolding close_loop add_node
    close_loop-Closed s same at_lo Part.nothing =
        let j : foot < P.node_count s.graph = rw same x.inside in
        let i : head < P.node_count s.graph = omega (arith, j, x.after) in
        let more = P.node_count-add_edge head foot on_false s.graph i j in
        edge-then P head foot on_false s _ i j (
          edge-last P head foot on_true _ (omega (arith, i, more)) (omega (arith, j, more))
            (rw same empty-Closed, refl))
    close_loop-Closed s same at_lo (Part.span {h = h} {p = p} f) =
        let j : foot < P.node_count s.graph = rw same x.inside in
        let i : head < P.node_count s.graph = omega (arith, j, x.after) in
        let h_to : h < P.node_count s.graph = rw same f.head_to in
        let p_to : p < P.node_count s.graph = rw same f.foot_to in
        let c₁ = P.node_count-add_edge head foot on_false s.graph i j in
        let g₁ = P.add_edge head foot on_false s.graph in
        let c₂ = P.node_count-add_node Node.enter_scope g₁ in
        let c₃ = P.node_count-add_node Node.exit_scope (P.add_node Node.enter_scope g₁) in
        let enter = P.node_count g₁ in
        let exit = P.node_count (P.add_node Node.enter_scope g₁) in
        let g₃ = with_ends P g₁ in
        let head_to : head < P.node_count g₃ = omega (arith, c₁, c₂, c₃, i) in
        let enter_to : enter < P.node_count g₃ = omega (arith, c₂, c₃) in
        let c₄ = P.node_count-add_edge head enter on_true g₃ head_to enter_to in
        let g₄ = P.add_edge head enter on_true g₃ in
        let enter_to' : enter < P.node_count g₄ = omega (arith, c₄, enter_to) in
        let h_to' : h < P.node_count g₄ = omega (arith, c₁, c₂, c₃, c₄, h_to) in
        let c₅ = P.node_count-add_edge enter h normal g₄ enter_to' h_to' in
        let g₅ = P.add_edge enter h normal g₄ in
        let p_to' : p < P.node_count g₅ = omega (arith, c₁, c₂, c₃, c₄, c₅, p_to) in
        let exit_to : exit < P.node_count g₅ = omega (arith, c₃, c₄, c₅) in
        let c₆ = P.node_count-add_edge p exit normal g₅ p_to' exit_to in
        edge-then P head foot on_false s _ i j (
          edge-then P head enter on_true _ _ head_to enter_to (
            edge-then P enter h normal _ _ enter_to' h_to' (
              edge-then P p exit normal _ _ p_to' exit_to (
                edge-last P exit foot normal _ (omega (arith, c₆, exit_to))
                  (omega (arith, c₁, c₂, c₃, c₄, c₅, c₆, j))
                  (rw same (span-Closed at_lo f _ _ refl refl), refl)))))
