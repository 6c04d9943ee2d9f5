-- ===== src/Drawing/Whole.antt =====
-- The graph of a whole function in smpl/src/analysis/control_flow.rs: the start, the scope of the
-- body and the end.
use smpl_mirror.ControlFlow.Checked.{edge-then}
use smpl_mirror.Common.{
  ℕ, suc, ◌+◌, [], ◌∷◌, none, some, false, inr, ◌≡◌, refl, ◌∙◌, ◌≤◌, ◌<◌, arith,
}
use smpl_mirror.ControlFlow.{Node, Edge, is_own_head, normal}
use smpl_mirror.ControlFlow.Petgraph.{Petgraph, cfg_of}
use smpl_mirror.ControlFlow.Generate.{Cursor, Gen, add_node, link, append_node, append_node_index}
use smpl_mirror.ControlFlow.Checked.{Checked}
use smpl_mirror.ByteGen.FirstPass.Tree.{Tree}
use smpl_mirror.ByteGen.FirstPass.Riding.{Laid}
use smpl_mirror.Drawing.{graft, graft-done}
use smpl_mirror.Drawing.Graphs.{
  Within, Spans, Spans-refl, Spans-trans, Spans-narrow, Grows-add_node, Spans-add_edge,
  add_edge-Edged, add_node-Added, add_edge-Linked,
}
use smpl_mirror.Drawing.Fragment.{Lands, Fragment, append-Fragment, single-Fragment}
use smpl_mirror.Drawing.Cursors.{Heads}

add-zero : (k : ℕ) → k + 0 ≡ k
add-zero k = omega arith

suc-add : (v k : ℕ) → suc v + k ≡ suc (v + k)
suc-add v k = omega arith

module _ (P : Petgraph) (lo : ℕ) where
  -- The function from the node on that enters its scope, to the last node so far; the nodes below
  -- the number are those of the start and the end.
  pub record Line (h : ℕ) (t : Tree) (g₀ : P.Graph) (c : Cursor) (s : Gen P.Graph) : Type 0 where
    pub foot : ℕ
    pub previous : c.previous ≡ some foot
    pub fragment : Fragment P lo 0 s.graph s.flow.next_id h foot t
    pub below : Spans P 0 lo g₀ s.graph

  append-at :
      (h foot : ℕ) (w : Node) (t t₁ : Tree) (g₀ g : P.Graph) (ids : ℕ)
      → ((id : ℕ) → is_own_head id w ≡ false)
      → Heads P 0 0 g₀ w t₁
      → Fragment P lo 0 g ids h foot t
      → Spans P 0 lo g₀ g
      → Fragment P lo 0
          (P.add_edge foot (P.node_count g) normal (P.add_node w g))
          ids
          h
          (P.node_count g)
          (graft t t₁)
        × Spans P 0 lo g₀ (P.add_edge foot (P.node_count g) normal (P.add_node w g))
  append-at h foot w t t₁ g₀ g ids other step f below =
      let n = P.node_count g in
      let g₁ = P.add_node w g in
      let a = add_node-Added P w g in
      let on = Grows-add_node P w g in
      let foot_to : foot < P.node_count g₁ = omega (arith, f.foot_to, a.count) in
      let n_to : n < P.node_count g₁ = omega (arith, a.count) in
      let y = add_edge-Edged P foot n normal g₁ foot_to n_to in
      let single =
        single-Fragment P {t = t₁} {ids = ids} {first = ids} (y.count ∙ a.count)
          (y.weights n ∙ a.is) (y.others n (omega (arith, f.foot_to)) ∙ a.bare) (λ id lt. other id)
          (step n) in
      (
        append-Fragment P f single (omega arith) (
            add_edge-Linked P foot n normal (Spans-narrow P (omega arith) (omega arith) on)
              f.foot_from f.foot_to n_to),
        Spans-trans P below (
            Spans-trans P (Spans-narrow P (omega arith) (omega (arith, f.few)) on)
              (Spans-add_edge P foot n normal g₁ (inr f.foot_from) foot_to n_to)),
      )

  pub append_node-Line :
      {h : ℕ} {t : Tree} {g₀ : P.Graph} (w : Node) (t₁ : Tree) (c : Cursor) (s : Gen P.Graph)
      → ((id : ℕ) → is_own_head id w ≡ false)
      → Heads P 0 0 g₀ w t₁
      → Line h t g₀ c s
      → Checked
          (λ c' s'. Line h (graft t t₁) g₀ c' s' × (s'.flow ≡ s.flow))
          (append_node P c w s)
          none
  unfolding append_node add_node append_node_index link
  append_node-Line {h = h} {t = t} {g₀ = g₀} w t₁ c s other step x =
      let (fragment, below) =
        append-at h x.foot w t t₁ g₀ s.graph s.flow.next_id other step x.fragment x.below in
      let more = P.node_count-add_node w s.graph in
      rw x.previous (
        edge-then P x.foot (P.node_count s.graph) normal _ _
          (omega (arith, x.fragment.foot_to, more)) (omega (arith, more))
          (Checked.runs (
            record {
              foot = P.node_count s.graph;
              previous = refl;
              fragment = fragment;
              below = below;
            },
            refl,
          )))

  -- The node that enters the scope, before a block.
  pub enter-Fragment :
      {first ids enter h p : ℕ} {e : Edge} {t : Tree} {g g' : P.Graph}
      → lo ≤ enter
      → P.node_count g ≤ enter
      → enter < P.node_count g'
      → P.weight g' enter ≡ some Node.enter_scope
      → P.edges g' enter ≡ (e, h) ∷ []
      → Spans P lo (P.node_count g) g g'
      → Fragment P lo first g ids h p t
      → Fragment P lo 0 g' ids enter p t
  enter-Fragment {enter = enter} {p = p} {g = g} {g' = g'} le after to is out s f = record {
    visits = suc f.visits;
    few = omega (arith, f.few, after, to);
    head_from = le;
    foot_from = f.foot_from;
    foot_to = omega (arith, f.foot_to, s.more);
    head_to = to;
    starts = record { node = Node.enter_scope; is = is; other = λ id h. refl };
    lays = λ {G} {m} {stop} {k} {rest} w leads lands laid. rw (suc-add f.visits k) (
        Laid.enter (w.weights enter le to ∙ is)
          (w.edges enter le to (omega (arith, f.foot_to, after)) ∙ out)
          (f.lays
            (record {
              room = omega (arith, w.room, s.more);
              weights = λ n h h'. w.weights n h (omega (arith, h', s.more)) ∙ s.weights n h h';
              edges =
                  λ n h h' other. w.edges n h (omega (arith, h', s.more)) other ∙ s.edges n h h';
            })
            (rw (← s.edges p f.foot_from f.foot_to) leads) lands laid));
  }

  -- The edge to the last node of the graph.
  pub end-Laid :
      {h end : ℕ} {t : Tree} {g₀ : P.Graph} {c : Cursor} {s : Gen P.Graph} (start : ℕ) (node : Node)
      (x : Line h t g₀ c s)
      → end < lo
      → P.weight g₀ end ≡ some node
      → ((id : ℕ) → is_own_head id node ≡ false)
      → Laid (cfg_of P (P.add_edge x.foot end normal s.graph) start) t h end x.fragment.visits
        × Spans P 0 lo g₀ (P.add_edge x.foot end normal s.graph)
        × (P.node_count (P.add_edge x.foot end normal s.graph) ≡ P.node_count s.graph)
  end-Laid {h = h} {end = end} {t = t} {s = s} start node x before is other =
      let f = x.fragment in
      let end_to : end < P.node_count s.graph =
        omega (arith, before, f.few, f.foot_from, f.foot_to) in
      let y = add_edge-Edged P x.foot end normal s.graph f.foot_to end_to in
      let l =
        add_edge-Linked P x.foot end normal (Spans-refl P lo _ s.graph) f.foot_from f.foot_to
          end_to in
      let w : Within P lo s.graph x.foot (cfg_of P (P.add_edge x.foot end normal s.graph) start) =
        record { room = l.within.room; weights = l.within.weights; edges = l.within.edges } in
      let lands : Lands s.flow.next_id (cfg_of P (P.add_edge x.foot end normal s.graph) start) end =
        record {
          node = node;
          is = y.weights end ∙ x.below.weights end (omega arith) before ∙ is;
          other = λ id h. other id;
        } in
      let laid : Laid (cfg_of P (P.add_edge x.foot end normal s.graph) start) (graft t Tree.done) h
          end (f.visits + 0) =
        f.lays w l.leads lands Laid.done in
      (
        rw add-zero at (rw graft-done at laid),
        Spans-trans P x.below
            (Spans-add_edge P x.foot end normal s.graph (inr f.foot_from) f.foot_to end_to),
        y.count,
      )
