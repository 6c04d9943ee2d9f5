-- ===== src/Drawing/Opening.antt =====
-- The condition of a branch in smpl/src/analysis/control_flow.rs, after the path on true.
use smpl_mirror.Common.{ℕ, [], some, inr, ◌≡◌, refl, ◌∙◌, ◌<◌, arith}
use smpl_mirror.TypedAst.{Expr}
use smpl_mirror.ControlFlow.{Node, normal, on_true}
use smpl_mirror.ControlFlow.Petgraph.{Petgraph}
use smpl_mirror.ByteGen.FirstPass.Tree.{Tree}
use smpl_mirror.Drawing.Graphs.{
  Spans, Spans-trans, Spans-narrow, Grows-add_node, Grows-trans, Spans-add_edge, add_edge-Edged,
  add_node-Added, add_edge-Linked,
}
use smpl_mirror.Drawing.Fragment.{Fragment}
use smpl_mirror.Drawing.Branching.{OpenBranch}

module _ (P : Petgraph) (id : ℕ) (condition : Expr) where
  abbrev pub with_split : P.Graph → P.Graph
  with_split g = P.add_node (Node.branch_split id condition) g

  abbrev pub with_merge : P.Graph → P.Graph
  with_merge g = P.add_node (Node.branch_merge id) (with_split g)

  -- The graph after `with_condition`.
  abbrev pub with_branch : P.Graph → ℕ → ℕ → P.Graph
  with_branch g enter exit =
      P.add_edge exit (P.node_count (with_split g)) normal
        (P.add_edge (P.node_count g) enter on_true (with_merge g))

  pub record Opened (lo : ℕ) (g g' : P.Graph) (enter exit split merge : ℕ) (t : Tree) : Type 0 where
    pub split_to : split < P.node_count (with_merge g)
    pub enter_to : enter < P.node_count (with_merge g)
    pub exit_to : exit < P.node_count (P.add_edge split enter on_true (with_merge g))
    pub merge_to : merge < P.node_count (P.add_edge split enter on_true (with_merge g))
    pub branch : OpenBranch P lo id condition split merge g' t
    pub below : Spans P 0 lo g g'
    pub bare : P.edges g' merge ≡ []

  pub with_branch-Opened :
      {lo first ids enter exit : ℕ} {g : P.Graph} {t : Tree}
      → Fragment P lo first g ids enter exit t
      → Opened lo g
          (with_branch g enter exit)
          enter
          exit
          (P.node_count g)
          (P.node_count (with_split g))
          t
  with_branch-Opened {lo = lo} {enter = enter} {exit = exit} {g = g} f =
      let split = P.node_count g in
      let merge = P.node_count (with_split g) in
      let a = add_node-Added P (Node.branch_split id condition) g in
      let b = add_node-Added P (Node.branch_merge id) (with_split g) in
      let on : Spans P 0 split g (with_merge g) =
        Grows-trans P (Grows-add_node P _ g) (Grows-add_node P _ (with_split g)) in
      let on' = Grows-add_node P (Node.branch_merge id) (with_split g) in
      let split_to : split < P.node_count (with_merge g) = omega (arith, a.count, b.count) in
      let enter_to : enter < P.node_count (with_merge g) =
        omega (arith, f.head_to, a.count, b.count) in
      let g₁ = P.add_edge split enter on_true (with_merge g) in
      let y = add_edge-Edged P split enter on_true (with_merge g) split_to enter_to in
      let s₁ : Spans P 0 split (with_merge g) g₁ =
        Spans-add_edge P split enter on_true (with_merge g) (inr (omega arith)) split_to enter_to in
      let exit_to : exit < P.node_count g₁ = omega (arith, f.foot_to, a.count, b.count, y.count) in
      let merge_to : merge < P.node_count g₁ = omega (arith, b.count, y.count) in
      let g₂ = P.add_edge exit merge normal g₁ in
      let z = add_edge-Edged P exit merge normal g₁ exit_to merge_to in
      let whole : Spans P 0 split g g₁ = Spans-trans P on s₁ in
      let split_is : P.weight (with_merge g) split ≡ some (Node.branch_split id condition) =
        on'.weights split (omega arith) (omega (arith, a.count)) ∙ a.is in
      let split_bare : P.edges (with_merge g) split ≡ [] =
        on'.edges split (omega arith) (omega (arith, a.count)) ∙ a.bare in
      record {
        split_to = split_to;
        enter_to = enter_to;
        exit_to = exit_to;
        merge_to = merge_to;
        branch = record {
          inner = g;
          first = _;
          ids = _;
          enter = enter;
          exit = exit;
          fragment = f;
          linked =
              add_edge-Linked P exit merge normal (Spans-narrow P (omega arith) (omega arith) whole)
                f.foot_from f.foot_to merge_to;
          at_split = refl;
          at_merge = a.count;
          inside = omega (arith, merge_to, z.count);
          is = z.weights split ∙ y.weights split ∙ split_is;
          merge_is = z.weights merge ∙ y.weights merge ∙ b.is;
          yes = z.others split (omega (arith, f.foot_to)) ∙ y.alone split_bare;
        };
        below =
            Spans-trans P (Spans-narrow P (omega arith) (omega (arith, f.few)) whole)
              (Spans-add_edge P exit merge normal g₁ (inr f.foot_from) exit_to merge_to);
        bare =
            z.others merge (omega (arith, f.foot_to, a.count))
            ∙ y.others merge (omega (arith, a.count))
            ∙ b.bare;
      }
