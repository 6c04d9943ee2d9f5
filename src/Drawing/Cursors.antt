-- ===== src/Drawing/Cursors.antt =====
-- The part of a block that smpl/src/analysis/control_flow.rs has built so far.
use smpl_mirror.ControlFlow.{normal}
use smpl_mirror.Common.{◌<◌}
use smpl_mirror.ControlFlow.Checked.{add_edge_lem}
use smpl_mirror.Common.{
  ℕ, suc, List, [], ◌∷◌, ◌++◌, Option, none, some, false, ◌≡◌, refl, sym, ap, ◌∙◌, ◌≤◌, ok, arith,
}
use smpl_mirror.ExprFlow.Steps.{Good}
use smpl_mirror.ControlFlow.{Node, BlockNode, Edge, Cfg, is_own_head}
use smpl_mirror.ControlFlow.Petgraph.{Petgraph}
use smpl_mirror.ControlFlow.Generate.{
  Cursor, Gen, add_node, link, or_else, append_node_index, append_node, flush, push,
}
use smpl_mirror.ControlFlow.Checked.{Checked}
use smpl_mirror.ByteGen.FirstPass.Tree.{Tree}
use smpl_mirror.ByteGen.FirstPass.Riding.{Laid, block_tree, statement}
use smpl_mirror.Drawing.{graft, graft-done, graft_assoc, one}
use smpl_mirror.Drawing.Graphs.{Grows, Grows-add_node, Spans, Linked-Spans, add_node-Added}
use smpl_mirror.Drawing.Fragment.{
  Part, Links, linked_graph, linked_graph-Linking, append-Part, single-Fragment,
}

graft-block_tree :
    (bs : List BlockNode) (rest : Tree) → graft (block_tree bs Tree.done) rest ≡ block_tree bs rest
unfolding graft
graft-block_tree [] rest = refl
graft-block_tree (b ∷ bs) rest = ap (Tree.simple (statement b)) (graft-block_tree bs rest)

block_tree-push :
    (bs : List BlockNode) (b : BlockNode)
    → block_tree bs (one (statement b)) ≡ block_tree (bs ++ b ∷ []) Tree.done
block_tree-push [] b = refl
block_tree-push (c ∷ bs) b = ap (Tree.simple (statement c)) (block_tree-push bs b)

pub whole_lem :
    (built t₁ t : Tree) (bs : List BlockNode)
    → bs ≡ []
    → t ≡ graft built (block_tree bs Tree.done)
    → graft t t₁ ≡ graft (graft built t₁) (block_tree bs Tree.done)
whole_lem built t₁ t bs empty p = rw (p, empty, graft-done built, graft-done (graft built t₁)) refl

module _ (P : Petgraph) where
  -- The nodes that a link joins are there.
  abbrev pub Joins : Option ℕ → ℕ → ℕ → Type 0
  Joins none n k = Unit
  Joins (some p) n k = (p < k) × (n < k)

  pub Part-Joins :
      {lo first ids n k : ℕ} {h p : Option ℕ} {g : P.Graph} {t : Tree}
      → Part P lo first g ids h p t
      → P.node_count g ≤ k
      → n < k
      → Joins p n k
  Part-Joins Part.nothing le i = tt
  Part-Joins (Part.span f) le i = (omega (arith, f.foot_to, le), i)

  pub append_node_index_lem :
      (c : Cursor) (n : ℕ) (s : Gen P.Graph)
      → Joins c.previous n (P.node_count s.graph)
      → append_node_index P c n s
        ≡ ok (
          record c { head = some (or_else P c.head n); previous = some n },
          record { graph = linked_graph P c.previous n s.graph; flow = s.flow },
        )
  append_node_index_lem c n s joins = at_previous c.previous joins refl
    where
      at_previous :
          (p : Option ℕ)
          → Joins p n (P.node_count s.graph)
          → c.previous ≡ p
          → append_node_index P c n s
            ≡ ok (
              record c { head = some (or_else P c.head n); previous = some n },
              record { graph = linked_graph P c.previous n s.graph; flow = s.flow },
            )
      at_previous none j e = unfold append_node_index link in rw e refl
      at_previous (some p) j e =
          unfold append_node_index link in rw (e, add_edge_lem P p n normal s j.0 j.1) refl

  pub Links-Spans :
      {lo first ids : ℕ} {h p : Option ℕ} {g g' g'' : P.Graph} {t : Tree} (n : ℕ)
      → Part P lo first g ids h p t
      → Links P lo g g' p n
      → Spans P lo (P.node_count g) g' g''
      → Links P lo g g'' p n
  Links-Spans n Part.nothing l s = tt
  Links-Spans n (Part.span f) l s = Linked-Spans P f.foot_from f.foot_to l s

  module _ (good_lo first : ℕ) (g₀ : P.Graph) where
    -- What is built and what is in the current basic block are the tree so far.
    pub record CursorDrawn (t : Tree) (c : Cursor) (s : Gen P.Graph) : Type 0 where
      pub built : Tree
      pub part : Part P (P.node_count g₀) first s.graph s.flow.next_id c.head c.previous built
      pub whole : t ≡ graft built (block_tree c.current_block Tree.done)
      pub grows : Grows P g₀ s.graph
      pub ahead : first ≤ s.flow.next_id
      pub good : Good good_lo s.flow

    abbrev pub Heads : Node → Tree → Type 0
    Heads w t =
        (b : ℕ) (G : Cfg) (m stop k : ℕ) (e : Edge) (rest : Tree)
        → G.weight b ≡ some w
        → G.edges b ≡ (e, m) ∷ []
        → Laid G rest m stop k
        → Laid G (graft t rest) b stop (suc k)

    pub append_node-Drawn :
        (w : Node) (t₁ t : Tree) (c : Cursor) (s : Gen P.Graph)
        → c.current_block ≡ []
        → ((id : ℕ) → is_own_head id w ≡ false)
        → Heads w t₁
        → CursorDrawn t c s
        → Checked
            (λ c' s'. CursorDrawn (graft t t₁) c' s' × (c'.current_block ≡ []) × (s'.flow ≡ s.flow))
            (append_node P c w s)
            none
    unfolding append_node add_node
    append_node-Drawn w t₁ t c s empty other step x =
        let n = P.node_count s.graph in
        let g₁ = P.add_node w s.graph in
        let a = add_node-Added P w s.graph in
        let l =
          linked_graph-Linking P n x.part (omega arith) x.grows (Grows-add_node P w s.graph)
            (omega (arith, a.count)) in
        let f =
          single-Fragment P {t = t₁} (l.count ∙ a.count)
            (l.weights n (omega (arith, a.count)) ∙ a.is)
            (l.edges n (omega arith) (omega (arith, a.count)) ∙ a.bare) (λ id lt. other id)
            (step n) in
        rw
          (append_node_index_lem c n (record { graph = g₁; flow = s.flow })
            (Part-Joins x.part (Grows-add_node P w s.graph).more (omega (arith, a.count))))
          (Checked.runs {a = record c { head = some (or_else P c.head n); previous = some n }}
            {s = record { graph = linked_graph P c.previous n g₁; flow = s.flow }}
            (
              record {
                built = graft x.built t₁;
                part = append-Part P x.part f (omega arith) x.grows.more x.ahead l.links;
                whole = whole_lem x.built t₁ t c.current_block empty x.whole;
                grows = l.grows;
                ahead = x.ahead;
                good = x.good;
              },
              empty,
              refl,
            ))

    block-Heads : (bs : List BlockNode) → Heads (Node.block bs) (block_tree bs Tree.done)
    block-Heads bs b G m stop k e rest is out laid =
        rw (graft-block_tree bs rest) (Laid.block is out laid)

    flush-at :
        (bs : List BlockNode) (t : Tree) (h p : Option ℕ) (s : Gen P.Graph)
        → CursorDrawn t (record { head = h; previous = p; current_block = bs }) s
        → Checked
            (λ c' s'. CursorDrawn t c' s' × (c'.current_block ≡ []) × (s'.flow ≡ s.flow))
            (flush P (record { head = h; previous = p; current_block = bs }) s)
            none
    unfolding flush
    flush-at [] t h p s x = Checked.runs (x, refl, refl)
    flush-at (b ∷ bs) t h p s x = rw x.whole (
        append_node-Drawn (Node.block (b ∷ bs)) (block_tree (b ∷ bs) Tree.done) x.built
          (record { head = h; previous = p; current_block = [] }) s refl (λ id. refl)
          (block-Heads (b ∷ bs))
          (record {
            built = x.built;
            part = x.part;
            whole = sym (graft-done x.built);
            grows = x.grows;
            ahead = x.ahead;
            good = x.good;
          }))

    pub flush-Drawn :
        (t : Tree) (c : Cursor) (s : Gen P.Graph)
        → CursorDrawn t c s
        → Checked
            (λ c' s'. CursorDrawn t c' s' × (c'.current_block ≡ []) × (s'.flow ≡ s.flow))
            (flush P c s)
            none
    flush-Drawn t c s x = flush-at c.current_block t c.head c.previous s x

    pub push-Drawn :
        {t : Tree} {c : Cursor} {s : Gen P.Graph} (b : BlockNode)
        → CursorDrawn t c s
        → CursorDrawn (graft t (one (statement b))) (push P c b) s
    push-Drawn {c = c} b x = record {
      built = x.built;
      part = x.part;
      whole =
          rw
            (
              x.whole,
              graft_assoc x.built (block_tree c.current_block Tree.done) (one (statement b)),
              graft-block_tree c.current_block (one (statement b)),
              block_tree-push c.current_block b,
            )
            refl;
      grows = x.grows;
      ahead = x.ahead;
      good = x.good;
    }
