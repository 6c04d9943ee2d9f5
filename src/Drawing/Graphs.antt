-- ===== src/Drawing/Graphs.antt =====
-- Graphs of the petgraph crate that grow as smpl/src/analysis/control_flow.rs adds nodes and edges.
use smpl_mirror.Common.{ℕ, suc, List, [], ◌∷◌, some, ◌≡◌, ◌≢◌, refl, ◌∙◌, ◌≤◌, ◌<◌, ◌⊎◌, arith}
use smpl_mirror.ControlFlow.{Node, Edge, Cfg}
use smpl_mirror.ControlFlow.Petgraph.{Petgraph, cfg_of}

-- The list of the edges of a node, with an edge to the other node more.
pub record Leads (old new : List (Edge × ℕ)) (m : ℕ) : Type 0 where
  pub by : Edge
  pub alone : old ≡ [] → new ≡ (by, m) ∷ []
  pub beside : (x : Edge × ℕ) → old ≡ x ∷ [] → (new ≡ x ∷ (by, m) ∷ []) ⊎ (new ≡ (by, m) ∷ x ∷ [])

module _ (P : Petgraph) where
  -- The nodes from a number on and below another are in the second graph as in the first.
  pub record Spans (lo hi : ℕ) (g g' : P.Graph) : Type 0 where
    pub more : P.node_count g ≤ P.node_count g'
    pub weights : (n : ℕ) → lo ≤ n → n < hi → P.weight g' n ≡ P.weight g n
    pub edges : (n : ℕ) → lo ≤ n → n < hi → P.edges g' n ≡ P.edges g n

  -- All nodes are.
  abbrev pub Grows : P.Graph → P.Graph → Type 0
  Grows g g' = Spans 0 (P.node_count g) g g'

  -- So are the nodes from a number on in a graph, apart from the edges of the one.
  pub record Within (lo : ℕ) (g : P.Graph) (foot : ℕ) (G : Cfg) : Type 0 where
    pub room : P.node_count g ≤ G.node_count
    pub weights : (n : ℕ) → lo ≤ n → n < P.node_count g → G.weight n ≡ P.weight g n
    pub edges : (n : ℕ) → lo ≤ n → n < P.node_count g → n ≢ foot → G.edges n ≡ P.edges g n

  pub Spans-refl : (lo hi : ℕ) (g : P.Graph) → Spans lo hi g g
  Spans-refl lo hi g = record {
    more = omega arith;
    weights = λ n le lt. refl;
    edges = λ n le lt. refl;
  }

  pub Spans-trans :
      {lo hi : ℕ} {g g' g'' : P.Graph} → Spans lo hi g g' → Spans lo hi g' g'' → Spans lo hi g g''
  Spans-trans s s' = record {
    more = omega (arith, s.more, s'.more);
    weights = λ n le lt. s'.weights n le lt ∙ s.weights n le lt;
    edges = λ n le lt. s'.edges n le lt ∙ s.edges n le lt;
  }

  pub Spans-narrow :
      {lo lo' hi hi' : ℕ} {g g' : P.Graph}
      → lo ≤ lo'
      → hi' ≤ hi
      → Spans lo hi g g'
      → Spans lo' hi' g g'
  Spans-narrow le le' s = record {
    more = s.more;
    weights = λ n h h'. s.weights n (omega (arith, h, le)) (omega (arith, h', le'));
    edges = λ n h h'. s.edges n (omega (arith, h, le)) (omega (arith, h', le'));
  }

  pub Grows-trans : {g g' g'' : P.Graph} → Grows g g' → Grows g' g'' → Grows g g''
  Grows-trans s s' = Spans-trans s (Spans-narrow (omega arith) s.more s')

  pub Grows-add_node : (w : Node) (g : P.Graph) → Grows g (P.add_node w g)
  Grows-add_node w g = record {
    more = rw (P.node_count-add_node w g) (omega arith);
    weights = λ n le lt. rw (P.weight-add_node w g n) (ground (arith, lt));
    edges = λ n le lt. rw (P.edges-add_node w g n) (ground (arith, lt));
  }

  pub Spans-add_node :
      {lo hi : ℕ} (w : Node) (g : P.Graph) → hi ≤ P.node_count g → Spans lo hi g (P.add_node w g)
  Spans-add_node w g le = Spans-narrow (omega arith) le (Grows-add_node w g)

  -- An edge from a node outside of the range.
  pub Spans-add_edge :
      {lo hi : ℕ} (a b : ℕ) (e : Edge) (g : P.Graph)
      → (a < lo) ⊎ (hi ≤ a)
      → a < P.node_count g
      → b < P.node_count g
      → Spans lo hi g (P.add_edge a b e g)
  Spans-add_edge a b e g outside lt lt' = record {
    more = rw (P.node_count-add_edge a b e g lt lt') (omega arith);
    weights = λ n h h'. P.weight-add_edge a b e g n lt lt';
    edges = λ n h h'. rw (P.edges-add_edge a b e g n lt lt') (ground (arith, h, h', outside));
  }

  put-Leads : (m : ℕ) (e : Edge) (es : List (Edge × ℕ)) → Leads es (P.put (e, m) es) m
  put-Leads m e es = record {
    by = e;
    alone = λ p. rw p (P.put-first (e, m));
    beside = λ x p. rw p (P.put-second (e, m) x);
  }

  -- From the first graph to the second, an edge from the node leads to the other node.
  pub record Linked (lo : ℕ) (g g' : P.Graph) (p n : ℕ) : Type 0 where
    pub within : Within lo g p (cfg_of P g' 0)
    pub leads : Leads (P.edges g p) (P.edges g' p) n

  pub add_edge-Linked :
      {g g' : P.Graph} {lo : ℕ} (p n : ℕ) (e : Edge)
      → Spans lo (P.node_count g) g g'
      → lo ≤ p
      → p < P.node_count g
      → n < P.node_count g'
      → Linked lo g (P.add_edge p n e g') p n
  add_edge-Linked {g = g} {g' = g'} p n e s le lt lt' =
      let h : p < P.node_count g' = omega (arith, lt, s.more) in
      record {
        within = record {
          room = rw (P.node_count-add_edge p n e g' h lt') s.more;
          weights = λ m from to. P.weight-add_edge p n e g' m h lt' ∙ s.weights m from to;
          edges = λ m from to other.
              rw (P.edges-add_edge p n e g' m h lt') (ground (arith, other, s.edges m from to));
        };
        leads =
            rw (P.edges-add_edge p n e g' p h lt', s.edges p le lt)
              (ground (arith, put-Leads n e (P.edges g p)));
      }

  pub Linked-Spans :
      {g g' g'' : P.Graph} {lo p n : ℕ}
      → lo ≤ p
      → p < P.node_count g
      → Linked lo g g' p n
      → Spans lo (P.node_count g) g' g''
      → Linked lo g g'' p n
  Linked-Spans {p = p} le lt l s =
      let w = l.within in
      record {
        within = record {
          room = omega (arith, w.room, s.more);
          weights = λ m from to. s.weights m from to ∙ w.weights m from to;
          edges = λ m from to other. s.edges m from to ∙ w.edges m from to other;
        };
        leads = rw (s.edges p le lt) l.leads;
      }

  -- The second graph has an edge more.
  pub record Edged (a b : ℕ) (e : Edge) (g g' : P.Graph) : Type 0 where
    pub count : P.node_count g' ≡ P.node_count g
    pub weights : (n : ℕ) → P.weight g' n ≡ P.weight g n
    pub others : (n : ℕ) → n ≢ a → P.edges g' n ≡ P.edges g n
    pub alone : P.edges g a ≡ [] → P.edges g' a ≡ (e, b) ∷ []
    pub beside :
        (x : Edge × ℕ)
        → P.edges g a ≡ x ∷ []
        → (P.edges g' a ≡ x ∷ (e, b) ∷ []) ⊎ (P.edges g' a ≡ (e, b) ∷ x ∷ [])

  pub add_edge-Edged :
      (a b : ℕ) (e : Edge) (g : P.Graph)
      → a < P.node_count g
      → b < P.node_count g
      → Edged a b e g (P.add_edge a b e g)
  add_edge-Edged a b e g lt lt' =
      let own : P.edges (P.add_edge a b e g) a ≡ P.put (e, b) (P.edges g a) =
        rw (P.edges-add_edge a b e g a lt lt') (ground arith) in
      record {
        count = P.node_count-add_edge a b e g lt lt';
        weights = λ n. P.weight-add_edge a b e g n lt lt';
        others = λ n other. rw (P.edges-add_edge a b e g n lt lt') (ground (arith, other));
        alone = λ p. own ∙ rw p (P.put-first (e, b));
        beside = λ x p. rw (own, p) (P.put-second (e, b) x);
      }

  -- The second graph has a new node, with the number.
  pub record Added (w : Node) (n : ℕ) (g g' : P.Graph) : Type 0 where
    pub at_end : n ≡ P.node_count g
    pub count : P.node_count g' ≡ suc n
    pub is : P.weight g' n ≡ some w
    pub bare : P.edges g' n ≡ []

  pub add_node-Added : (w : Node) (g : P.Graph) → Added w (P.node_count g) g (P.add_node w g)
  add_node-Added w g = record {
    at_end = refl;
    count = P.node_count-add_node w g;
    is = rw (P.weight-add_node w g (P.node_count g)) (ground arith);
    bare = rw (P.edges-add_node w g (P.node_count g)) (ground arith);
  }
