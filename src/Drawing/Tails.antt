-- ===== src/Drawing/Tails.antt =====
-- The loops and branches of the graph that smpl/src/analysis/control_flow.rs builds, from the paths
-- that end in their last nodes.
use smpl_mirror.Common.{ℕ, ◌+◌, [], ◌∷◌, some, false, ◌≡◌, ◌≢◌, refl, ◌∙◌, ◌≤◌, ◌<◌, arith}
use smpl_mirror.TypedAst.{Expr}
use smpl_mirror.ControlFlow.{Node, Cfg, is_own_head, on_true, on_false, back_edge}
use smpl_mirror.ControlFlow.Petgraph.{Petgraph, cfg_of}
use smpl_mirror.ByteGen.FirstPass.Tree.{Tree}
use smpl_mirror.ByteGen.FirstPass.Riding.{Laid, Fork}
use smpl_mirror.Drawing.{graft, graft-done}
use smpl_mirror.Drawing.Graphs.{Leads, Within, Linked}
use smpl_mirror.Drawing.Fragment.{Lands, Fragment, one-add}

add-zero : (k : ℕ) → k + 0 ≡ k
add-zero k = omega arith

module _ (P : Petgraph) where
  -- The graph holds the tree from a node to the last one, whatever that one is linked to.
  pub record Tail (lo : ℕ) (g : P.Graph) (start stop : ℕ) (t : Tree) : Type 0 where
    pub visits : ℕ
    pub few : visits + lo ≤ P.node_count g
    pub lays : {G : Cfg} → Within P lo g stop G → Laid G t start stop visits

  pub done-Tail :
      {lo : ℕ} {g : P.Graph} (stop : ℕ) → lo ≤ P.node_count g → Tail lo g stop stop Tree.done
  done-Tail stop le = record { visits = 0; few = omega (arith, le); lays = λ w. Laid.done }

  -- The graph from which a later one comes, by a link of a node.
  pub Within-Linked :
      {lo lo' p stop n : ℕ} {g g' : P.Graph} {G : Cfg}
      → lo' ≤ lo
      → ((n : ℕ) → lo ≤ n → n < P.node_count g → n ≢ stop)
      → Linked P lo g g' p n
      → Within P lo' g' stop G
      → Within P lo g p G
  Within-Linked le apart l w =
      let c = l.within in
      record {
        room = omega (arith, w.room, c.room);
        weights = λ n from lt.
            w.weights n (omega (arith, from, le)) (omega (arith, lt, c.room)) ∙ c.weights n from lt;
        edges = λ n from lt other.
            w.edges n (omega (arith, from, le)) (omega (arith, lt, c.room)) (apart n from lt)
            ∙ c.edges n from lt other;
      }

  pub Fragment-Tail :
      {lo lo' first ids h p stop : ℕ} {g g' : P.Graph} {t : Tree} {node : Node}
      → lo' ≤ lo
      → lo' ≤ stop
      → stop < P.node_count g'
      → ((n : ℕ) → lo ≤ n → n < P.node_count g → n ≢ stop)
      → Fragment P lo first g ids h p t
      → Linked P lo g g' p stop
      → P.weight g' stop ≡ some node
      → ((id : ℕ) → is_own_head id node ≡ false)
      → Tail lo' g' h stop t
  Fragment-Tail {lo' = lo'} {h = h} {p = p} {stop = stop} {g = g} {t = t} {node = node} le le' lt
        apart f l is other =
      record {
        visits = f.visits;
        few = omega (arith, f.few, le, l.within.room);
        lays = λ {G} w.
            let c = l.within in
            let lands : Lands _ G stop = record {
              node = node;
              is = w.weights stop le' lt ∙ is;
              other = λ id _. other id;
            } in
            let leads : Leads (P.edges g p) (G.edges p) stop =
              rw
                (w.edges p (omega (arith, f.foot_from, le)) (omega (arith, f.foot_to, c.room))
                  (apart p f.foot_from f.foot_to))
                l.leads in
            let laid : Laid G (graft t Tree.done) h stop (f.visits + 0) =
              f.lays (Within-Linked le apart l w) leads lands Laid.done in
            rw add-zero at (rw graft-done at laid);
      }

  module _ {lo first ids : ℕ} {g : P.Graph} where
    pub loop-Fragment :
        {id h foot start : ℕ} {t : Tree} {condition : Expr}
        → lo ≤ h
        → lo ≤ foot
        → h ≢ foot
        → foot < P.node_count g
        → h < P.node_count g
        → first ≤ id
        → id < ids
        → P.weight g h ≡ some (Node.loop_head id condition)
        → Fork (cfg_of P g 0) h (on_true, start) (on_false, foot)
        → P.weight g foot ≡ some (Node.loop_foot id)
        → P.edges g foot ≡ (back_edge, h) ∷ []
        → Tail lo g start foot t
        → 0 < lo
        → Fragment P lo first g ids h foot (Tree.loop id condition t Tree.done)
    unfolding graft
    loop-Fragment {id = id} {h = h} {foot = foot} le le' apart lt lt' new old is fork foot_is back
          tail some_before =
        record {
          visits = 1;
          few = omega (arith, le, lt');
          head_from = le;
          foot_from = le';
          foot_to = lt;
          head_to = lt';
          starts = record { node = _; is = is; other = λ i h. ground (arith, h, new) };
          lays = λ {G} {m} {stop} {k} {rest} w leads lands laid. rw (one-add k) (
              Laid.loop (w.weights h le lt' ∙ is) (rw (w.edges h le lt' apart) fork) (tail.lays w)
                (omega (arith, tail.few, w.room, some_before)) (w.weights foot le' lt ∙ foot_is)
                (leads.beside (back_edge, h) back) lands.is (lands.other id old) laid);
        }

    pub branch-Fragment :
        {id split merge t f : ℕ} {true_path false_path : Tree} {condition : Expr}
        → lo ≤ split
        → lo ≤ merge
        → split ≢ merge
        → merge < P.node_count g
        → split < P.node_count g
        → P.weight g split ≡ some (Node.branch_split id condition)
        → Fork (cfg_of P g 0) split (on_true, t) (on_false, f)
        → P.weight g merge ≡ some (Node.branch_merge id)
        → P.edges g merge ≡ []
        → Tail lo g t merge true_path
        → Tail lo g f merge false_path
        → 0 < lo
        → Fragment P lo first g ids split merge
            (Tree.branch id condition true_path false_path Tree.done)
    unfolding graft
    branch-Fragment {id = id} {split = split} {merge = merge} le le' apart lt lt' is fork merge_is
          bare yes_tail no_tail some_before =
        record {
          visits = 1;
          few = omega (arith, le, lt');
          head_from = le;
          foot_from = le';
          foot_to = lt;
          head_to = lt';
          starts = record { node = _; is = is; other = λ i h. refl };
          lays = λ {G} {m} {stop} {k} {rest} w leads lands laid. rw (one-add k) (
              Laid.branch (w.weights split le lt' ∙ is) (rw (w.edges split le lt' apart) fork)
                (yes_tail.lays w) (omega (arith, yes_tail.few, w.room, some_before))
                (no_tail.lays w) (omega (arith, no_tail.few, w.room, some_before))
                (w.weights merge le' lt ∙ merge_is) (leads.alone bare) laid);
        }
