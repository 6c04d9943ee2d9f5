-- ===== src/Drawing/Fragment.antt =====
-- Parts of the graph that smpl/src/analysis/control_flow.rs builds, each of which holds a tree
-- whatever its last node is linked to later.
use smpl_mirror.Common.{
  ℕ, suc, ◌+◌, [], ◌∷◌, Option, none, some, false, inr, ◌≡◌, refl, ◌∙◌, ◌≤◌, ◌<◌, arith,
}
use smpl_mirror.ControlFlow.{Node, Edge, Cfg, is_own_head, normal}
use smpl_mirror.ControlFlow.Petgraph.{Petgraph, cfg_of}
use smpl_mirror.ControlFlow.Generate.{or_else}
use smpl_mirror.ByteGen.FirstPass.Tree.{Tree}
use smpl_mirror.ByteGen.FirstPass.Riding.{Laid}
use smpl_mirror.Drawing.{graft, graft_assoc}
use smpl_mirror.Drawing.Graphs.{
  Leads, Grows, Grows-trans, Spans-refl, Spans-trans, Spans-narrow, Spans-add_edge, Within, Linked,
  add_edge-Linked,
}

add_assoc : (a b c : ℕ) → a + b + c ≡ a + (b + c)
add_assoc a b c = omega arith

pub one-add : (k : ℕ) → 1 + k ≡ suc k
one-add k = omega arith

-- The node is there, and is the head of no loop with an id below the number.
pub record Lands (i : ℕ) (G : Cfg) (m : ℕ) : Type 0 where
  pub node : Node
  pub is : G.weight m ≡ some node
  pub other : (id : ℕ) → id < i → is_own_head id node ≡ false

module _ (P : Petgraph) where
  -- The nodes from the number on hold the tree, from the head to the foot: once the foot is linked
  -- to a node, the graph that holds a tree from that node on holds the two trees one after the
  -- other from the head on.
  pub record Fragment (lo first : ℕ) (g : P.Graph) (ids h p : ℕ) (t : Tree) : Type 0 where
    pub visits : ℕ
    pub few : visits + lo ≤ P.node_count g
    pub head_from : lo ≤ h
    pub foot_from : lo ≤ p
    pub foot_to : p < P.node_count g
    pub head_to : h < P.node_count g
    pub starts : Lands first (cfg_of P g 0) h
    pub lays :
        {G : Cfg} {m stop k : ℕ} {rest : Tree}
        → Within P lo g p G
        → Leads (P.edges g p) (G.edges p) m
        → Lands ids G m
        → Laid G rest m stop k
        → Laid G (graft t rest) h stop (visits + k)

  Lands-Within :
      {lo ids h p : ℕ} {g : P.Graph} {G : Cfg}
      → lo ≤ h
      → h < P.node_count g
      → Lands ids (cfg_of P g 0) h
      → Within P lo g p G
      → Lands ids G h
  Lands-Within {h = h} le lt l w = record {
    node = l.node;
    is = w.weights h le lt ∙ l.is;
    other = l.other;
  }

  pub Within-from :
      {lo lo' p : ℕ} {g : P.Graph} {G : Cfg} → lo ≤ lo' → Within P lo g p G → Within P lo' g p G
  Within-from le w = record {
    room = w.room;
    weights = λ n from lt. w.weights n (omega (arith, from, le)) lt;
    edges = λ n from lt other. w.edges n (omega (arith, from, le)) lt other;
  }

  -- A fragment, and one on the nodes after it, to which its foot is linked.
  pub append-Fragment :
      {lo mid first ids ids' h p h' p' : ℕ} {g g' : P.Graph} {t t' : Tree}
      → Fragment lo first g ids h p t
      → Fragment mid ids g' ids' h' p' t'
      → P.node_count g ≤ mid
      → Linked P lo g g' p h'
      → Fragment lo first g' ids' h p' (graft t t')
  append-Fragment {lo = lo} {h = h} {p = p} {h' = h'} {p' = p'} {t = t} {t' = t'} a b le l =
      let c = l.within in
      record {
        visits = a.visits + b.visits;
        few = omega (arith, a.few, b.few, le);
        head_from = a.head_from;
        foot_from = omega (arith, a.foot_from, a.foot_to, b.foot_from, le);
        foot_to = b.foot_to;
        head_to = omega (arith, a.head_to, c.room);
        starts = record {
          node = a.starts.node;
          is = c.weights h a.head_from a.head_to ∙ a.starts.is;
          other = a.starts.other;
        };
        lays = λ {G} {m} {stop} {k} {rest} w leads lands laid.
            rw (graft_assoc t t' rest, add_assoc a.visits b.visits k)
              (a.lays
                (record {
                  room = omega (arith, w.room, c.room);
                  weights = λ n from lt.
                      w.weights n from (omega (arith, lt, c.room)) ∙ c.weights n from lt;
                  edges = λ n from lt other.
                      w.edges n from (omega (arith, lt, c.room))
                        (omega (arith, lt, b.foot_from, le))
                      ∙ c.edges n from lt other;
                })
                (rw
                  (w.edges p a.foot_from (omega (arith, a.foot_to, c.room))
                    (omega (arith, a.foot_to, b.foot_from, le)))
                  l.leads)
                (Lands-Within b.head_from b.head_to b.starts
                  (Within-from (omega (arith, a.few, le)) w))
                (b.lays (Within-from (omega (arith, a.few, le)) w) leads lands laid));
      }

  pub widen-Fragment :
      {lo lo' first first' ids ids' h p : ℕ} {g : P.Graph} {t : Tree}
      → lo' ≤ lo
      → first' ≤ first
      → ids ≤ ids'
      → Fragment lo first g ids h p t
      → Fragment lo' first' g ids' h p t
  widen-Fragment le le' le'' a = record {
    visits = a.visits;
    few = omega (arith, a.few, le);
    head_from = omega (arith, a.head_from, le);
    foot_from = omega (arith, a.foot_from, le);
    foot_to = a.foot_to;
    head_to = a.head_to;
    starts = record {
      node = a.starts.node;
      is = a.starts.is;
      other = λ id lt. a.starts.other id (omega (arith, lt, le'));
    };
    lays = λ w leads lands laid.
        a.lays (Within-from le w) leads
          (record {
            node = lands.node;
            is = lands.is;
            other = λ id lt. lands.other id (omega (arith, lt, le''));
          })
          laid;
  }

  -- A new node, in a graph where it has no edges yet.
  pub single-Fragment :
      {w : Node} {t : Tree} {b ids first : ℕ} {g : P.Graph}
      → P.node_count g ≡ suc b
      → P.weight g b ≡ some w
      → P.edges g b ≡ []
      → ((id : ℕ) → id < first → is_own_head id w ≡ false)
      → ((G : Cfg) (m stop k : ℕ) (e : Edge) (rest : Tree)
          → G.weight b ≡ some w
          → G.edges b ≡ (e, m) ∷ []
          → Laid G rest m stop k
          → Laid G (graft t rest) b stop (suc k))
      → Fragment b first g ids b b t
  single-Fragment {w = w} {b = b} {g = g} count is bare other step = record {
    visits = 1;
    few = omega (arith, count);
    head_from = omega arith;
    foot_from = omega arith;
    foot_to = omega (arith, count);
    head_to = omega (arith, count);
    starts = record { node = w; is = is; other = other };
    lays = λ {G} {m} {stop} {k} {rest} within leads lands laid. rw (one-add k) (
        step G m stop k leads.by rest (within.weights b (omega arith) (omega (arith, count)) ∙ is)
          (leads.alone bare) laid);
  }

  -- What is built of a block: nothing yet, or a fragment.
  pub data Part (lo first : ℕ) (g : P.Graph) (ids : ℕ) : Option ℕ → Option ℕ → Tree → Type 0 where
    nothing : Part lo first g ids none none Tree.done
    span :
        {h p : ℕ} {t : Tree}
        → Fragment lo first g ids h p t
        → Part lo first g ids (some h) (some p) t

  pub widen-Part :
      {lo first ids ids' : ℕ} {g : P.Graph} {h p : Option ℕ} {t : Tree}
      → ids ≤ ids'
      → Part lo first g ids h p t
      → Part lo first g ids' h p t
  widen-Part le Part.nothing = Part.nothing
  widen-Part le (Part.span f) = Part.span (widen-Fragment (omega arith) (omega arith) le f)

  abbrev pub Links : ℕ → P.Graph → P.Graph → Option ℕ → ℕ → Type 0
  Links lo g g' none n = Unit
  Links lo g g' (some p) n = Linked P lo g g' p n

  abbrev pub linked_graph : Option ℕ → ℕ → P.Graph → P.Graph
  linked_graph none n g = g
  linked_graph (some p) n g = P.add_edge p n normal g

  pub append-Part :
      {lo mid first ids ids' h' p' : ℕ} {h p : Option ℕ} {g g' : P.Graph} {t t' : Tree}
      → Part lo first g ids h p t
      → Fragment mid ids g' ids' h' p' t'
      → P.node_count g ≤ mid
      → lo ≤ P.node_count g
      → first ≤ ids
      → Links lo g g' p h'
      → Part lo first g' ids' (some (or_else P h h')) (some p') (graft t t')
  unfolding graft
  append-Part Part.nothing b le le' le'' l =
      Part.span (widen-Fragment (omega (arith, le, le')) le'' (omega arith) b)
  append-Part (Part.span a) b le le' le'' l = Part.span (append-Fragment a b le l)

  -- A graph after the link of the last node of a part to a later one.
  pub record Linking (lo : ℕ) (g₀ g g₁ g' : P.Graph) (p : Option ℕ) (n : ℕ) : Type 0 where
    pub links : Links lo g g' p n
    pub grows : Grows P g₀ g'
    pub count : P.node_count g' ≡ P.node_count g₁
    pub weights : (m : ℕ) → m < P.node_count g₁ → P.weight g' m ≡ P.weight g₁ m
    pub edges : (m : ℕ) → P.node_count g ≤ m → m < P.node_count g₁ → P.edges g' m ≡ P.edges g₁ m

  pub linked_graph-Linking :
      {lo first ids : ℕ} {h p : Option ℕ} {g₀ g g₁ : P.Graph} {t : Tree} (n : ℕ)
      → Part lo first g ids h p t
      → P.node_count g₀ ≤ lo
      → Grows P g₀ g
      → Grows P g g₁
      → n < P.node_count g₁
      → Linking lo g₀ g g₁ (linked_graph p n g₁) p n
  linked_graph-Linking n Part.nothing le s s' lt = record {
    links = tt;
    grows = Grows-trans P s s';
    count = refl;
    weights = λ m h. refl;
    edges = λ m h h'. refl;
  }
  linked_graph-Linking {lo = lo} {g₁ = g₁} n (Part.span {p = p} f) le s s' lt =
      let before : p < P.node_count g₁ = omega (arith, f.foot_to, s'.more) in
      let l = add_edge-Linked P {lo = 0} p n normal (Spans-refl P 0 _ g₁) (omega arith) before lt in
      record {
        links =
            add_edge-Linked P p n normal (Spans-narrow P (omega arith) (omega arith) s') f.foot_from
              f.foot_to lt;
        grows =
            Spans-trans P (Grows-trans P s s')
              (Spans-add_edge P p n normal g₁ (inr (omega (arith, f.foot_from, le))) before lt);
        count = P.node_count-add_edge p n normal g₁ before lt;
        weights = λ m h. l.within.weights m (omega arith) h;
        edges = λ m h h'. l.within.edges m (omega arith) h' (omega (arith, h, f.foot_to));
      }
