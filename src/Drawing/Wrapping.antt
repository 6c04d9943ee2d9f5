-- ===== src/Drawing/Wrapping.antt =====
-- The nodes of a scope around a block, in smpl/src/analysis/control_flow.rs.
use smpl_mirror.ControlFlow.Checked.{edge-last, edge-then}
use smpl_mirror.Common.{ℕ, suc, [], Option, none, some, inl, inr, ◌≡◌, refl, ◌∙◌, ◌≤◌, ◌<◌, arith}
use smpl_mirror.ControlFlow.{Node, Edge, normal}
use smpl_mirror.ControlFlow.Petgraph.{Petgraph}
use smpl_mirror.ControlFlow.Generate.{Gen, scoped}
use smpl_mirror.ControlFlow.Checked.{Checked}
use smpl_mirror.ByteGen.FirstPass.Tree.{Tree}
use smpl_mirror.Drawing.Graphs.{
  Spans, Spans-trans, Spans-add_node, Grows-add_node, Spans-add_edge, add_edge-Edged,
  add_node-Added, add_edge-Linked,
}
use smpl_mirror.Drawing.Fragment.{Fragment, Part}
use smpl_mirror.Drawing.Scopes.{empty-Fragment, scope-Fragment}

module _ (P : Petgraph) where
  -- The two new nodes after those of a block.
  pub record Ends (lo : ℕ) (g g' : P.Graph) (enter exit : ℕ) : Type 0 where
    pub spans : Spans P lo (P.node_count g) g g'
    pub count : P.node_count g' ≡ suc exit
    pub at_enter : enter ≡ P.node_count g
    pub at_exit : exit ≡ suc enter
    pub enters : P.weight g' enter ≡ some Node.enter_scope
    pub exits : P.weight g' exit ≡ some Node.exit_scope
    pub enter_bare : P.edges g' enter ≡ []
    pub exit_bare : P.edges g' exit ≡ []

  abbrev pub with_ends : P.Graph → P.Graph
  with_ends g = P.add_node Node.exit_scope (P.add_node Node.enter_scope g)

  pub with_ends-Ends :
      {lo : ℕ} {g : P.Graph} (g' : P.Graph)
      → Spans P lo (P.node_count g) g g'
      → P.node_count g' ≡ P.node_count g
      → Ends lo g (with_ends g') (P.node_count g') (P.node_count (P.add_node Node.enter_scope g'))
  with_ends-Ends {g = g} g' s same =
      let a = add_node-Added P Node.enter_scope g' in
      let g₁ = P.add_node Node.enter_scope g' in
      let b = add_node-Added P Node.exit_scope g₁ in
      let on = Grows-add_node P Node.exit_scope g₁ in
      record {
        spans =
            Spans-trans P
              (Spans-trans P s (Spans-add_node P Node.enter_scope g' (omega (arith, same))))
              (Spans-add_node P Node.exit_scope g₁ (omega (arith, same, a.count)));
        count = b.count;
        at_enter = same;
        at_exit = a.count;
        enters = on.weights (P.node_count g') (omega arith) (omega (arith, a.count)) ∙ a.is;
        exits = b.is;
        enter_bare = on.edges (P.node_count g') (omega arith) (omega (arith, a.count)) ∙ a.bare;
        exit_bare = b.bare;
      }

  -- An edge from a node before the block.
  pub add_edge-Ends :
      {lo enter exit : ℕ} {g : P.Graph} (a b : ℕ) (e : Edge) (g' : P.Graph)
      → lo ≤ P.node_count g
      → a < lo
      → b < P.node_count g'
      → Ends lo g g' enter exit
      → Ends lo g (P.add_edge a b e g') enter exit
  add_edge-Ends {enter = enter} {exit = exit} {g = g} a b e g' le lt lt' x =
      let before : a < P.node_count g' = omega (arith, le, lt, x.count, x.at_enter, x.at_exit) in
      let y = add_edge-Edged P a b e g' before lt' in
      record {
        spans = Spans-trans P x.spans (Spans-add_edge P a b e g' (inl lt) before lt');
        count = y.count ∙ x.count;
        at_enter = x.at_enter;
        at_exit = x.at_exit;
        enters = y.weights enter ∙ x.enters;
        exits = y.weights exit ∙ x.exits;
        enter_bare = y.others enter (omega (arith, le, lt, x.at_enter)) ∙ x.enter_bare;
        exit_bare = y.others exit (omega (arith, le, lt, x.at_enter, x.at_exit)) ∙ x.exit_bare;
      }

  pub record Scoped (lo first ids : ℕ) (g g' : P.Graph) (enter exit : ℕ) (t : Tree) : Type 0 where
    pub fragment : Fragment P lo first g' ids enter exit t
    pub count : P.node_count g' ≡ P.node_count g
    pub below : Spans P 0 lo g g'
    pub bare : P.edges g' exit ≡ []

  module _ {lo first ids : ℕ} {g : P.Graph} {enter exit : ℕ} (le : lo ≤ P.node_count g) where
    empty-Scoped :
        (g' : P.Graph)
        → Ends lo g g' enter exit
        → Scoped lo first ids g' (P.add_edge enter exit normal g') enter exit Tree.done
    empty-Scoped g' x =
        let c = x.count in
        let i = x.at_enter in
        let j = x.at_exit in
        let lt : enter < P.node_count g' = omega (arith, c, j) in
        let lt' : exit < P.node_count g' = omega (arith, c) in
        let y = add_edge-Edged P enter exit normal g' lt lt' in
        let bare = y.others exit (omega (arith, j)) ∙ x.exit_bare in
        record {
          fragment =
              empty-Fragment P (omega (arith, le, i)) (omega (arith, le, i, j))
                (omega (arith, lt, y.count)) (omega (arith, lt', y.count)) (omega (arith, j))
                (y.weights enter ∙ x.enters) (y.weights exit ∙ x.exits) bare
                (omega (arith, le, i, j, c, y.count)) (y.alone x.enter_bare);
          count = y.count;
          below = Spans-add_edge P enter exit normal g' (inr (omega (arith, le, i))) lt lt';
          bare = bare;
        }

    pub span-Scoped :
        {h p first' : ℕ} {t : Tree} (g' : P.Graph)
        → Fragment P lo first' g ids h p t
        → Ends lo g g' enter exit
        → Scoped lo first ids g'
            (P.add_edge p exit normal (P.add_edge enter h normal g'))
            enter
            exit
            t
    span-Scoped {h = h} {p = p} g' f x =
        let c = x.count in
        let i = x.at_enter in
        let j = x.at_exit in
        let g₁ = P.add_edge enter h normal g' in
        let enter_to : enter < P.node_count g' = omega (arith, c, j) in
        let h_to : h < P.node_count g' = omega (arith, f.head_to, c, i, j) in
        let y = add_edge-Edged P enter h normal g' enter_to h_to in
        let p_to : p < P.node_count g₁ = omega (arith, f.foot_to, c, i, j, y.count) in
        let exit_to : exit < P.node_count g₁ = omega (arith, c, y.count) in
        let z = add_edge-Edged P p exit normal g₁ p_to exit_to in
        let bare =
          z.others exit (omega (arith, f.foot_to, i, j))
          ∙ y.others exit (omega (arith, j))
          ∙ x.exit_bare in
        record {
          fragment =
              scope-Fragment P (omega (arith, le, i)) (omega (arith, le, i, j))
                (omega (arith, enter_to, y.count, z.count)) (omega (arith, exit_to, z.count))
                (omega (arith, j)) (z.weights enter ∙ y.weights enter ∙ x.enters)
                (z.weights exit ∙ y.weights exit ∙ x.exits) bare f (omega (arith, i, j))
                (omega (arith, i, j, c, y.count, z.count))
                (z.others enter (omega (arith, f.foot_to, i)) ∙ y.alone x.enter_bare)
                (add_edge-Linked P p exit normal
                  (Spans-trans P x.spans
                    (Spans-add_edge P enter h normal g' (inr (omega (arith, i))) enter_to h_to))
                  f.foot_from f.foot_to exit_to);
          count = z.count ∙ y.count;
          below =
              Spans-trans P
                (Spans-add_edge P enter h normal g' (inr (omega (arith, le, i))) enter_to h_to)
                (Spans-add_edge P p exit normal g₁ (inr f.foot_from) p_to exit_to);
          bare = bare;
        }

    pub scoped-Scoped :
        {first' : ℕ} {h p : Option ℕ} {t : Tree} (s : Gen P.Graph)
        → Part P lo first' g ids h p t
        → Ends lo g s.graph enter exit
        → Checked
            (λ _ s'. Scoped lo first ids s.graph s'.graph enter exit t × (s'.flow ≡ s.flow))
            (scoped P (record { head = h; foot = p }) enter exit s)
            none
    scoped-Scoped s Part.nothing x =
        edge-last P enter exit normal s (omega (arith, x.count, x.at_exit)) (omega (arith, x.count))
          (empty-Scoped s.graph x, refl)
    scoped-Scoped s (Part.span {h = h} {p = p} f) x =
        let c = x.count in
        let i = x.at_enter in
        let j = x.at_exit in
        let enter_to : enter < P.node_count s.graph = omega (arith, c, j) in
        let h_to : h < P.node_count s.graph = omega (arith, f.head_to, c, i, j) in
        let more = P.node_count-add_edge enter h normal s.graph enter_to h_to in
        edge-then P enter h normal s _ enter_to h_to (
          edge-last P p exit normal _ (omega (arith, f.foot_to, c, i, j, more))
            (omega (arith, c, more)) (span-Scoped s.graph f x, refl))
