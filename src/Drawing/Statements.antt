-- ===== src/Drawing/Statements.antt =====
-- The statements of smpl/src/analysis/control_flow.rs that have blocks: loops and branches.
use mathlib.Core.Path.{subst}
use smpl_mirror.ControlFlow.Checked.{add_edge_lem}
use smpl_mirror.Common.{
  ℕ, suc, ◌+◌, [], Option, none, some, inr, ◌≡◌, refl, sym, ◌∙◌, ◌≤◌, ◌<◌, Outcome, arith,
}
use smpl_mirror.Ast
use smpl_mirror.Ast.{Block, Stmt, Branch, Branches, OptBlock}
use smpl_mirror.TypedAst.{Expr}
use smpl_mirror.ExprFlow
use smpl_mirror.ExprFlow.Steps.{Good}
use smpl_mirror.ExprFlow.Total.{flatten-Done}
use smpl_mirror.ControlFlow.{Node, back_edge}
use smpl_mirror.ControlFlow.Petgraph.{Petgraph}
use smpl_mirror.ControlFlow.Generate.{
  ControlFlowError, Cursor, InternalLoopData, begin, Gen, GenM, and_then, flowing, add_node, flush,
  open_loop, generate_stmt, generate_scoped_block, generate_conditional, stack_branches,
  stack_default,
}
use smpl_mirror.ControlFlow.Checked.{Checked, only-Checked}
use smpl_mirror.ByteGen.FirstPass.Tree.{Tree}
use smpl_mirror.Drawing.{graft, draw_stmt, draw_others, draw_default}
use smpl_mirror.Drawing.Graphs.{
  Grows, Grows-trans, Grows-add_node, Spans-trans, Spans-narrow, Spans-add_edge, add_edge-Edged,
  add_node-Added,
}
use smpl_mirror.Drawing.Fragment.{linked_graph, linked_graph-Linking, append-Part}
use smpl_mirror.Drawing.Looping.{LoopNodes, LoopNodes-Spans, close_loop-Closed}
use smpl_mirror.Drawing.Branching.{move-OpenBranch, BothPaths-Fragment}
use smpl_mirror.Drawing.Steps.{BlockDrawn, BranchDrawn, graph-then, new_id-Good}
use smpl_mirror.Drawing.Stacking.{Closes}
use smpl_mirror.Drawing.Cursors.{
  CursorDrawn, flush-Drawn, Part-Joins, append_node_index_lem, Links-Spans, whole_lem,
}

module _ (P : Petgraph) (good_lo first : ℕ) (g₀ : P.Graph) where
  abbrev Drawn : Tree → Cursor → Gen P.Graph → Type 0
  Drawn t c s = CursorDrawn P good_lo first g₀ t c s

  -- The statement is built after the tree, and is what is drawn of it.
  pub record StmtDrawn (in_loop : Option ℕ) (stmt : Stmt) (t : Tree) (s : Gen P.Graph) (c' : Cursor)
      (s' : Gen P.Graph) : Type 0 where
    pub tree : Tree
    pub draws : draw_stmt in_loop stmt s.flow ≡ some (tree, s'.flow)
    pub cursor : CursorDrawn P good_lo first g₀ (graft t tree) c' s'

  after-then :
      {B : Type 0} {t : Tree} {r : Outcome ControlFlowError (Cursor × Gen P.Graph)}
      {R : B → Gen P.Graph → Type 0} (f : Cursor → GenM (Gen P.Graph) B) (flow : ExprFlow.State)
      → Checked (λ c' s'. Drawn t c' s' × (c'.current_block ≡ []) × (s'.flow ≡ flow)) r none
      → ((c : Cursor) (g : P.Graph)
          → Drawn t c (record { graph = g; flow = flow })
          → c.current_block ≡ []
          → Checked R (f c (record { graph = g; flow = flow })) none)
      → Checked R (and_then r f) none
  after-then {t = t} {R = R} f flow (Checked.runs {a = a} {s = s} (x, empty, same)) next =
      subst (λ flow. Checked R (f a (record { graph = s.graph; flow = flow })) none) (sym same)
        (next a s.graph (subst (λ flow. Drawn t a (record { graph = s.graph; flow = flow })) same x)
          empty)

  pub flush-then :
      {B : Type 0} {t : Tree} {R : B → Gen P.Graph → Type 0} {c : Cursor} {s : Gen P.Graph}
      (f : Cursor → GenM (Gen P.Graph) B)
      → Drawn t c s
      → ((c' : Cursor) (g : P.Graph)
          → Drawn t c' (record { graph = g; flow = s.flow })
          → c'.current_block ≡ []
          → Checked R (f c' (record { graph = g; flow = s.flow })) none)
      → Checked R (and_then (flush P c s) f) none
  flush-then {t = t} {c = c} {s = s} f x next =
      after-then f s.flow (flush-Drawn P good_lo first g₀ t c s x) next

  abbrev opened : Node → Node → P.Graph → P.Graph
  opened head foot g =
      P.add_edge (P.node_count (P.add_node head g)) (P.node_count g) back_edge
        (P.add_node foot (P.add_node head g))

  opened-LoopNodes :
      (id : ℕ) (condition : Expr) (g : P.Graph)
      → LoopNodes P
          (P.node_count g)
          (P.node_count (P.add_node (Node.loop_head id condition) g))
          id
          condition
          (opened (Node.loop_head id condition) (Node.loop_foot id) g)
        × Grows P g (opened (Node.loop_head id condition) (Node.loop_foot id) g)
        × (P.node_count (opened (Node.loop_head id condition) (Node.loop_foot id) g)
            ≡ suc (P.node_count (P.add_node (Node.loop_head id condition) g)))
  opened-LoopNodes id condition g =
      let g₁ = P.add_node (Node.loop_head id condition) g in
      let g₂ = P.add_node (Node.loop_foot id) g₁ in
      let a = add_node-Added P (Node.loop_head id condition) g in
      let b = add_node-Added P (Node.loop_foot id) g₁ in
      let on = Grows-add_node P (Node.loop_foot id) g₁ in
      let n = P.node_count g in
      let foot = P.node_count g₁ in
      let to : foot < P.node_count g₂ = omega (arith, b.count) in
      let to' : n < P.node_count g₂ = omega (arith, b.count, a.count) in
      let y = add_edge-Edged P foot n back_edge g₂ to to' in
      (
        record {
          after = a.count;
          inside = omega (arith, to, y.count);
          is = y.weights n ∙ on.weights n (omega arith) (omega (arith, a.count)) ∙ a.is;
          foot_is = y.weights foot ∙ b.is;
          bare =
              y.others n (omega (arith, a.count))
              ∙ on.edges n (omega arith) (omega (arith, a.count))
              ∙ a.bare;
          back = y.alone b.bare;
        },
        Spans-trans P (Grows-trans P (Grows-add_node P _ g) on)
            (Spans-add_edge P foot n back_edge g₂ (inr (omega (arith, a.count))) to to'),
        y.count ∙ b.count,
      )

  pub while-Drawn :
      (in_loop : Option ℕ) (some_before : 0 < P.node_count g₀) (loop_data : InternalLoopData)
      (condition : Ast.Expr) (body : Block) (t : Tree) (c : Cursor) (s : Gen P.Graph)
      → ((head foot id : ℕ) (s' : Gen P.Graph)
          → 0 < P.node_count s'.graph
          → Good good_lo s'.flow
          → Checked
              (BlockDrawn P good_lo (some id) body s')
              (generate_scoped_block P body (some (head, foot, id)) begin s')
              none)
      → Drawn t c s
      → Checked
          (StmtDrawn in_loop (Ast.while_stmt condition body) t s)
          (generate_stmt P (Ast.while_stmt condition body) loop_data c s)
          none
  unfolding generate_stmt open_loop flowing add_node draw_stmt
  while-Drawn in_loop some_before loop_data condition body t c s built x =
      flush-then _ x (λ c₁ g x₁ empty.
        let e =
          flatten-Done good_lo condition (record s.flow { next_id = s.flow.next_id + 1 })
            (new_id-Good s.flow x₁.good) in
        let id = s.flow.next_id in
        let (unlinked, grown, count) = opened-LoopNodes id e.answer g in
        let head = P.node_count g in
        let foot = P.node_count (P.add_node (Node.loop_head id e.answer) g) in
        let g₃ = opened (Node.loop_head id e.answer) (Node.loop_foot id) g in
        let head_to : head < P.node_count g₃ = omega (arith, unlinked.inside, unlinked.after) in
        let l = linked_graph-Linking P head x₁.part (omega arith) x₁.grows grown head_to in
        let g₄ = linked_graph P c₁.previous head g₃ in
        let nodes : LoopNodes P head foot id e.answer g₄ = record {
          after = unlinked.after;
          inside = omega (arith, unlinked.inside, l.count);
          is = l.weights head head_to ∙ unlinked.is;
          foot_is = l.weights foot unlinked.inside ∙ unlinked.foot_is;
          bare = l.edges head (omega arith) head_to ∙ unlinked.bare;
          back = l.edges foot (omega (arith, unlinked.after)) unlinked.inside ∙ unlinked.back;
        } in
        let g₁ = P.add_node (Node.loop_head id e.answer) g in
        let g₂ = P.add_node (Node.loop_foot id) g₁ in
        let one = P.node_count-add_node (Node.loop_head id e.answer) g in
        let two = P.node_count-add_node (Node.loop_foot id) g₁ in
        rw
          (
            e.runs,
            add_edge_lem P foot head back_edge (record { graph = g₂; flow = e.after })
                (omega (arith, two)) (omega (arith, one, two)),
          )
          (rw
            (append_node_index_lem P c₁ head (record { graph = g₃; flow = e.after })
              (Part-Joins P x₁.part grown.more head_to))
            (only-Checked
              (built head foot id (record { graph = g₄; flow = e.after })
                (omega (arith, nodes.inside)) e.good)
              (λ b s₅ d.
                graph-then _ s₅.flow
                  (close_loop-Closed P {first = id} {ids = s₅.flow.next_id}
                    (LoopNodes-Spans P nodes d.grows) (omega (arith, some_before, x₁.grows.more))
                    (omega arith) (omega (arith, d.ahead, e.ahead)) s₅ refl (l.count ∙ count)
                    d.part)
                  (λ _ g₆ cl. Checked.runs (record {
                    tree = Tree.loop id e.answer d.tree Tree.done;
                    draws = rw (draw_stmt, ExprFlow.◌>>=◌, e.runs, d.draws) refl;
                    cursor = record {
                      built = graft x₁.built (Tree.loop id e.answer d.tree Tree.done);
                      part =
                          append-Part P x₁.part cl.fragment (omega arith) x₁.grows.more x₁.ahead (
                            Links-Spans P head x₁.part l.links (
                              Spans-narrow P (omega arith) (omega arith) (
                                Spans-trans P
                                  (Spans-narrow P (omega arith) (omega (arith, head_to, l.count))
                                    d.grows)
                                  cl.below)));
                      whole = whole_lem x₁.built _ t c₁.current_block empty x₁.whole;
                      grows = Spans-trans P l.grows (
                          Spans-narrow P (omega arith) x₁.grows.more (
                            Spans-trans P
                              (Spans-narrow P (omega arith) (omega (arith, head_to, l.count))
                                d.grows)
                              cl.below));
                      ahead = omega (arith, x₁.ahead, d.ahead, e.ahead);
                      good = d.good;
                    };
                  }))))))

  pub if-Drawn :
      (in_loop : Option ℕ) (some_before : 0 < P.node_count g₀) (loop_data : InternalLoopData)
      (branch : Branch) (others : Branches) (default : OptBlock) (t : Tree) (c : Cursor)
      (s : Gen P.Graph)
      → ((s' : Gen P.Graph)
          → 0 < P.node_count s'.graph
          → Good good_lo s'.flow
          → Checked
              (BranchDrawn P good_lo in_loop branch s')
              (generate_conditional P branch loop_data s')
              none)
      → Closes P good_lo (draw_others in_loop others (draw_default in_loop default)) (λ h f.
        stack_branches P others loop_data (λ h' f'. stack_default P default loop_data h' f') h f)
      → Drawn t c s
      → Checked
          (StmtDrawn in_loop (Ast.if_stmt branch others default) t s)
          (generate_stmt P (Ast.if_stmt branch others default) loop_data c s)
          none
  unfolding generate_stmt draw_stmt
  if-Drawn in_loop some_before loop_data branch others default t c s built closes x =
      flush-then _ x (λ c₁ g x₁ empty.
        only-Checked
          (built (record { graph = g; flow = s.flow }) (omega (arith, some_before, x₁.grows.more))
            x₁.good)
          (λ (h, f) s₂ d.
            let n = P.node_count g in
            let o = d.open_branch in
            let from : n ≤ h = omega (arith, o.fragment.few, o.at_split) in
            let h_to : h < P.node_count s₂.graph = omega (arith, o.inside, o.at_merge) in
            let l = linked_graph-Linking P h x₁.part (omega arith) x₁.grows d.grows h_to in
            let g₃ = linked_graph P c₁.previous h s₂.graph in
            let o₃ =
              move-OpenBranch P
                (record {
                  more = omega (arith, l.count);
                  weights = λ m le lt. l.weights m (omega (arith, lt, o.inside));
                  edges = λ m le lt. l.edges m le (omega (arith, lt, o.inside));
                })
                (l.weights f o.inside) o in
            rw (append_node_index_lem P c₁ h s₂ (Part-Joins P x₁.part d.grows.more h_to)) (
              only-Checked
                (closes n d.id h f d.flat d.tree (record { graph = g₃; flow = s₂.flow }) d.good o₃)
                (λ _ s₄ e.
                  let bare =
                    e.same_foot ∙ l.edges f (omega (arith, from, o.at_merge)) o.inside ∙ d.bare in
                  let fragment =
                    BothPaths-Fragment P {first = s.flow.next_id} {ids = s₄.flow.next_id}
                      (omega (arith, some_before, x₁.grows.more)) bare e.both in
                  Checked.runs (record {
                    tree = Tree.branch d.id d.flat d.tree e.path Tree.done;
                    draws = rw (draw_stmt, ExprFlow.◌>>=◌, d.draws, e.draws) refl;
                    cursor = record {
                      built = graft x₁.built (Tree.branch d.id d.flat d.tree e.path Tree.done);
                      part = append-Part P x₁.part fragment (omega arith) x₁.grows.more x₁.ahead (
                          Links-Spans P h x₁.part l.links
                            (Spans-narrow P (omega arith) (omega arith) e.below));
                      whole = whole_lem x₁.built _ t c₁.current_block empty x₁.whole;
                      grows =
                          Spans-trans P l.grows
                            (Spans-narrow P (omega arith) x₁.grows.more e.below);
                      ahead = omega (arith, x₁.ahead, d.ahead, e.ahead);
                      good = e.good;
                    };
                  })))))
