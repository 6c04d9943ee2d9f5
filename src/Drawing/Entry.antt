-- ===== src/Drawing/Entry.antt =====
-- The graph of a whole function, from its body (smpl/src/analysis/control_flow.rs).
use smpl_mirror.ControlFlow.Checked.{edge-then, add_edge_lem}
use smpl_mirror.Common.{
  ℕ, ◌+◌, [], ◌∷◌, Option, none, some, Bool, true, false, inl, inr, ◌≡◌, refl, sym, Outcome, ◌∙◌,
  ◌≤◌, ◌<◌, arith,
}
use mathlib.Core.Path.{subst}
use smpl_mirror.Ast.{Block}
use smpl_mirror.ExprFlow
use smpl_mirror.ExprFlow.Steps.{Good, no_fns-Good}
use smpl_mirror.ControlFlow.{Node, Cfg, is_own_head, normal}
use smpl_mirror.ControlFlow.Petgraph.{Petgraph, cfg_of}
use smpl_mirror.ControlFlow.Generate.{
  ControlFlowError, GenM, and_then, pure, Cursor, Gen, add_node, link, append_node,
  append_node_index, join, return_unit, generate_body, generate, finished,
}
use smpl_mirror.ControlFlow.Checked.{Checked, only-Checked, weaken-Checked}
use smpl_mirror.ByteGen.FirstPass.Tree.{Tree, return_stmt}
use smpl_mirror.ByteGen.FirstPass.Riding.{Laid}
use smpl_mirror.ByteGen.FirstPass.Entry.{Holds}
use smpl_mirror.Drawing.{graft, graft-done, one, draw, IsPlain}
use smpl_mirror.Drawing.Graphs.{
  Spans, Spans-refl, Spans-trans, Spans-narrow, Grows-add_node, Spans-add_edge, add_edge-Edged,
  add_node-Added,
}
use smpl_mirror.Drawing.Fragment.{Part, single-Fragment, widen-Fragment}
use smpl_mirror.Drawing.Blocks.{generate_scoped_block-Drawn}
use smpl_mirror.Drawing.Whole.{Line, append_node-Line, enter-Fragment, end-Laid}

state-then :
    {Graph A B : Type 0} {r : Outcome ControlFlowError (A × Gen Graph)} {Q : A → Gen Graph → Type 0}
    {R : B → Gen Graph → Type 0} (f : A → GenM (Gen Graph) B) (flow : ExprFlow.State)
    → Checked (λ a s. Q a s × (s.flow ≡ flow)) r none
    → ((a : A) (g : Graph)
        → Q a (record { graph = g; flow = flow })
        → Checked R (f a (record { graph = g; flow = flow })) none)
    → Checked R (and_then r f) none
state-then {Q = Q} {R = R} f flow (Checked.runs {a = a} {s = s} (q, same)) next =
    subst (λ flow. Checked R (f a (record { graph = s.graph; flow = flow })) none) (sym same)
      (next a s.graph (subst (λ flow. Q a (record { graph = s.graph; flow = flow })) same q))

-- What the return of the unit type adds.
abbrev pub closing : Bool → Tree
closing true = one (return_stmt none)
closing false = Tree.done

module _ (P : Petgraph) (lo : ℕ) where
  join-Line :
      {first ids start : ℕ} {h p : Option ℕ} {t : Tree} (g : P.Graph) (flow : ExprFlow.State)
      → ids ≡ flow.next_id
      → lo ≤ P.node_count g
      → start < lo
      → Part P lo first g ids h p t
      → Checked
          (λ c' s'.
            Line P lo
              (P.node_count g)
              t
              (P.add_edge start (P.node_count g) normal (P.add_node Node.enter_scope g))
              c'
              s'
            × (s'.flow ≡ flow))
          (join P
            (record { head = some start; previous = some (P.node_count g); current_block = [] })
            (record { head = h; foot = p })
            (record {
              graph = P.add_edge start (P.node_count g) normal (P.add_node Node.enter_scope g);
              flow = flow;
            }))
          none
  unfolding link graft
  join-Line {start = start} g flow same le before Part.nothing =
      let n = P.node_count g in
      let a = add_node-Added P Node.enter_scope g in
      let g₁ = P.add_node Node.enter_scope g in
      let start_to : start < P.node_count g₁ = omega (arith, le, before, a.count) in
      let y = add_edge-Edged P start n normal g₁ start_to (omega (arith, a.count)) in
      Checked.runs (
        record {
          foot = n;
          previous = refl;
          fragment = widen-Fragment P le (omega arith) (omega arith) (
              single-Fragment P {t = Tree.done} {ids = flow.next_id} {first = 0} (y.count ∙ a.count)
                (y.weights n ∙ a.is) (y.others n (omega (arith, le, before)) ∙ a.bare)
                (λ id lt. refl) (λ G m stop k e rest is out laid. Laid.enter is out laid));
          below = Spans-refl P 0 lo _;
        },
        refl,
      )
  join-Line {start = start} g flow same le before (Part.span {h = h} {p = p} f) =
      let n = P.node_count g in
      let a = add_node-Added P Node.enter_scope g in
      let g₁ = P.add_node Node.enter_scope g in
      let start_to : start < P.node_count g₁ = omega (arith, le, before, a.count) in
      let n_to : n < P.node_count g₁ = omega (arith, a.count) in
      let y = add_edge-Edged P start n normal g₁ start_to n_to in
      let g₂ = P.add_edge start n normal g₁ in
      let n_to₂ : n < P.node_count g₂ = omega (arith, n_to, y.count) in
      let h_to : h < P.node_count g₂ = omega (arith, f.head_to, n_to, y.count) in
      let z = add_edge-Edged P n h normal g₂ n_to₂ h_to in
      edge-then P n h normal _ _ n_to₂ h_to (
        Checked.runs (
          record {
            foot = p;
            previous = refl;
            fragment = rw (← same) (
                enter-Fragment P lo le (omega arith) (omega (arith, n_to₂, z.count))
                  (z.weights n ∙ y.weights n ∙ a.is)
                  (z.alone (y.others n (omega (arith, le, before)) ∙ a.bare))
                  (Spans-trans P
                    (Spans-narrow P (omega arith) (omega arith)
                      (Grows-add_node P Node.enter_scope g))
                    (Spans-trans P (Spans-add_edge P start n normal g₁ (inl before) start_to n_to)
                      (Spans-add_edge P n h normal g₂ (inr (omega arith)) n_to₂ h_to)))
                  f);
            below = Spans-add_edge P n h normal g₂ (inr le) n_to₂ h_to;
          },
          refl,
        ))

  return_unit-Line :
      {h : ℕ} {t : Tree} {g₀ : P.Graph} (returns_unit : Bool) (c : Cursor) (s : Gen P.Graph)
      → Line P lo h t g₀ c s
      → Checked
          (λ c' s'. Line P lo h (graft t (closing returns_unit)) g₀ c' s' × (s'.flow ≡ s.flow))
          (return_unit P returns_unit c s)
          none
  unfolding graft
  return_unit-Line true c s x =
      append_node-Line P lo (Node.return none) (closing true) c s (λ id. refl)
        (λ b G m stop k e rest is out laid. Laid.return is out laid) x
  return_unit-Line {t = t} false c s x = rw (graft-done t) (Checked.runs (x, refl))

  exit-Line :
      {h : ℕ} {t : Tree} {g₀ : P.Graph} (c : Cursor) (s : Gen P.Graph)
      → Line P lo h t g₀ c s
      → Checked
          (λ c' s'. Line P lo h t g₀ c' s' × (s'.flow ≡ s.flow))
          (append_node P c Node.exit_scope s)
          none
  unfolding graft
  exit-Line {h = h} {t = t} {g₀ = g₀} c s x =
      weaken-Checked
        (append_node-Line P lo Node.exit_scope Tree.done c s (λ id. refl)
          (λ b G m stop k e rest is out laid. Laid.exit is out laid) x)
        (λ c' s' (x', same). (subst (λ t. Line P lo h t g₀ c' s') (graft-done t) x', same))

  -- The end of the graph.
  record Ended (h end start : ℕ) (t : Tree) (g₀ : P.Graph) (s : Gen P.Graph) : Type 0 where
    pub visits : ℕ
    pub laid : Laid (cfg_of P s.graph start) t h end visits
    pub below : Spans P 0 lo g₀ s.graph
    pub room : visits + lo ≤ P.node_count s.graph

  index-Ended :
      {h end : ℕ} {t : Tree} {g₀ : P.Graph} (start : ℕ) (node : Node) (c : Cursor) (s : Gen P.Graph)
      → end < lo
      → P.weight g₀ end ≡ some node
      → ((id : ℕ) → is_own_head id node ≡ false)
      → Line P lo h t g₀ c s
      → Checked
          (λ _ s'. Ended h end start t g₀ s' × (s'.flow ≡ s.flow))
          (append_node_index P c end s)
          none
  unfolding append_node_index link
  index-Ended {end = end} start node c s before is other x =
      let (laid, below, count) = end-Laid P lo start node x before is other in
      rw x.previous (
        edge-then P x.foot end normal s _ x.fragment.foot_to (omega (arith, x.fragment.few, before))
          (Checked.runs (
            record {
              visits = x.fragment.visits;
              laid = laid;
              below = below;
              room = omega (arith, x.fragment.few, count);
            },
            refl,
          )))

module _ (P : Petgraph) (good_lo : ℕ) (body : Block) (returns_unit : Bool) where
  record BodyGenerated (start end : ℕ) (s s' : Gen P.Graph) : Type 0 where
    pub tree : Tree
    pub draws : draw none body s.flow ≡ some (tree, s'.flow)
    pub enter : ℕ
    pub visits : ℕ
    pub laid : Laid (cfg_of P s'.graph start) (graft tree (closing returns_unit)) enter end visits
    pub room : visits + P.node_count s.graph ≤ P.node_count s'.graph
    pub start_is : P.weight s'.graph start ≡ P.weight s.graph start
    pub end_is : P.weight s'.graph end ≡ P.weight s.graph end
    pub leads : P.edges s'.graph start ≡ (normal, enter) ∷ []

  generate_body-BodyGenerated :
      (start end : ℕ) (s : Gen P.Graph)
      → start < end
      → end < P.node_count s.graph
      → P.weight s.graph end ≡ some Node.end
      → P.edges s.graph start ≡ []
      → IsPlain none body
      → Good good_lo s.flow
      → Checked
          (λ _ s'. BodyGenerated start end s s')
          (generate_body P body returns_unit start end s)
          none
  unfolding generate_body append_node append_node_index add_node link
  generate_body-BodyGenerated start end s lt lt' is bare plain good =
      let lo = P.node_count s.graph in
      only-Checked
        (generate_scoped_block-Drawn P good_lo body none s (omega (arith, lt')) plain good)
        (λ b s₁ (d, bare').
          let n = P.node_count s₁.graph in
          let a = add_node-Added P Node.enter_scope s₁.graph in
          let g₁ = P.add_node Node.enter_scope s₁.graph in
          let on = Spans-trans P d.grows (
            Spans-narrow P (omega arith) d.grows.more
              (Grows-add_node P Node.enter_scope s₁.graph)) in
          let start_to : start < P.node_count g₁ = omega (arith, lt, lt', on.more) in
          let y = add_edge-Edged P start n normal g₁ start_to (omega (arith, a.count)) in
          let end_in : P.weight (P.add_edge start n normal g₁) end ≡ P.weight s.graph end =
            y.weights end ∙ on.weights end (omega arith) lt' in
          rw
            (add_edge_lem P start n normal (record { graph = g₁; flow = s₁.flow }) start_to
              (omega (arith, a.count)))
            (state-then _ s₁.flow
              (join-Line P lo s₁.graph s₁.flow refl d.grows.more (omega (arith, lt, lt')) d.part)
              (λ c₁ g₂ x₁.
                state-then _ s₁.flow
                  (return_unit-Line P lo returns_unit c₁ (record { graph = g₂; flow = s₁.flow }) x₁)
                  (λ c₂ g₃ x₂.
                    state-then _ s₁.flow
                      (exit-Line P lo c₂ (record { graph = g₃; flow = s₁.flow }) x₂)
                      (λ c₃ g₄ x₃.
                        weaken-Checked
                          (index-Ended P lo start Node.end c₃
                            (record { graph = g₄; flow = s₁.flow }) lt' (end_in ∙ is) (λ id. refl)
                            x₃)
                          (λ _ s₅ (x, same). record {
                            tree = d.tree;
                            draws = rw same d.draws;
                            enter = n;
                            visits = x.visits;
                            laid = x.laid;
                            room = x.room;
                            start_is =
                                x.below.weights start (omega arith) (omega (arith, lt, lt'))
                                ∙ y.weights start
                                ∙ on.weights start (omega arith) (omega (arith, lt, lt'));
                            end_is = x.below.weights end (omega arith) lt' ∙ end_in;
                            leads =
                                x.below.edges start (omega arith) (omega (arith, lt, lt'))
                                ∙ y.alone
                                    (on.edges start (omega arith) (omega (arith, lt, lt')) ∙ bare);
                          }))))))

-- The graph is that of the drawn body, with what the return of the unit type adds.
pub record Generated (body : Block) (returns_unit : Bool) (flow : ExprFlow.State) (g : Cfg)
    (after : ExprFlow.State) : Type 0 where
  pub tree : Tree
  pub draws : draw none body (record flow { anonymous_fns = [] }) ≡ some (tree, after)
  pub holds : Holds g (graft tree (closing returns_unit))

finished-Generated :
    (P : Petgraph) (body : Block) (returns_unit : Bool) (flow : ExprFlow.State)
    (start end good_lo : ℕ) (g : P.Graph) {A : Type 0}
    {r : Outcome ControlFlowError (A × Gen P.Graph)}
    → P.node_count g ≡ 2
    → P.weight g start ≡ some Node.start
    → P.weight g end ≡ some Node.end
    → Checked
        (λ _ s'.
          BodyGenerated P good_lo body returns_unit start end
            (record { graph = g; flow = record flow { anonymous_fns = [] } })
            s')
        r
        none
    → Checked (Generated body returns_unit flow) (finished P (and_then r (λ a. pure start))) none
finished-Generated P body returns_unit flow start end good_lo g two start_is end_is
      (Checked.runs x) =
    Checked.runs (record {
      tree = x.tree;
      draws = x.draws;
      holds = record {
        first = x.enter;
        last = end;
        visits = x.visits;
        edge = normal;
        starts = x.start_is ∙ start_is;
        leads = x.leads;
        laid = x.laid;
        ends = x.end_is ∙ end_is;
        room = omega (arith, x.room, two);
      };
    })

-- From data whose counters are ahead of every id in use, `generate` makes a graph of every body
-- with no `break`, and with `continue` in loops only: a graph that holds, from its start to its
-- end, the tree that is drawn of the body statement by statement, with the same flattened
-- expressions and the same ids, followed by an empty `return` if the function returns the unit
-- type. The graph is that of any implementation of the crate's interface.
pub generate-Generated :
    (P : Petgraph) (good_lo : ℕ) (body : Block) (returns_unit : Bool) (flow : ExprFlow.State)
    → IsPlain none body
    → Good good_lo flow
    → Checked (Generated body returns_unit flow) (generate P body returns_unit flow) none
unfolding generate add_node
generate-Generated P good_lo body returns_unit flow plain good =
    let g₁ = P.add_node Node.start P.new in
    let a = add_node-Added P Node.start P.new in
    let b = add_node-Added P Node.end g₁ in
    let on = Grows-add_node P Node.end g₁ in
    let start = P.node_count P.new in
    let start_to : start < P.node_count g₁ = omega (arith, a.count) in
    finished-Generated P body returns_unit flow start (P.node_count g₁) flow.next_fn_id
      (P.add_node Node.end g₁) (omega (arith, b.count, a.count, P.node_count-new))
      (on.weights start (omega arith) start_to ∙ a.is) b.is
      (generate_body-BodyGenerated P flow.next_fn_id body returns_unit start (P.node_count g₁)
        (record { graph = P.add_node Node.end g₁; flow = record flow { anonymous_fns = [] } })
        start_to (omega (arith, b.count)) b.is (on.edges start (omega arith) start_to ∙ a.bare)
        plain (no_fns-Good good))
