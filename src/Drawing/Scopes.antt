-- ===== src/Drawing/Scopes.antt =====
-- Blocks between the nodes of a scope, as smpl/src/analysis/control_flow.rs wraps them.
use smpl_mirror.Common.{ℕ, suc, ◌+◌, [], ◌∷◌, some, ◌≡◌, ◌≢◌, refl, ◌∙◌, ◌≤◌, ◌<◌, arith}
use smpl_mirror.ControlFlow.{Node, Edge}
use smpl_mirror.ControlFlow.Petgraph.{Petgraph}
use smpl_mirror.ByteGen.FirstPass.Tree.{Tree}
use smpl_mirror.ByteGen.FirstPass.Riding.{Laid}
use smpl_mirror.Drawing.{graft}
use smpl_mirror.Drawing.Graphs.{Leads, Linked}
use smpl_mirror.Drawing.Fragment.{Lands, Fragment}
use smpl_mirror.Drawing.Tails.{Within-Linked}

scope_visits : (v k : ℕ) → v + 2 + k ≡ suc (v + suc k)
scope_visits v k = omega arith

two-add : (k : ℕ) → 2 + k ≡ suc (suc k)
two-add k = omega arith

module _ (P : Petgraph) {lo first ids enter exit : ℕ} {g' : P.Graph} (from : lo ≤ enter)
    (from' : lo ≤ exit) (lt : enter < P.node_count g') (lt' : exit < P.node_count g')
    (apart : enter ≢ exit) (enters : P.weight g' enter ≡ some Node.enter_scope)
    (exits : P.weight g' exit ≡ some Node.exit_scope) (bare : P.edges g' exit ≡ []) where
  pub empty-Fragment :
      {e : Edge}
      → lo + 2 ≤ P.node_count g'
      → P.edges g' enter ≡ (e, exit) ∷ []
      → Fragment P lo first g' ids enter exit Tree.done
  unfolding graft
  empty-Fragment room p = record {
    visits = 2;
    few = omega (arith, room);
    head_from = from;
    foot_from = from';
    foot_to = lt';
    head_to = lt;
    starts = record { node = _; is = enters; other = λ id h. refl };
    lays = λ {G} {m} {stop} {k} {rest} w leads lands laid. rw (two-add k) (
        Laid.enter (w.weights enter from lt ∙ enters) (w.edges enter from lt apart ∙ p)
          (Laid.exit (w.weights exit from' lt' ∙ exits) (leads.alone bare) laid));
  }

  pub scope-Fragment :
      {h p first' : ℕ} {e : Edge} {t : Tree} {g : P.Graph}
      → Fragment P lo first' g ids h p t
      → P.node_count g ≤ exit
      → P.node_count g + 2 ≤ P.node_count g'
      → P.edges g' enter ≡ (e, h) ∷ []
      → Linked P lo g g' p exit
      → Fragment P lo first g' ids enter exit t
  scope-Fragment {p = foot} {g = g} f le room p l = record {
    visits = f.visits + 2;
    few = omega (arith, f.few, room);
    head_from = from;
    foot_from = from';
    foot_to = lt';
    head_to = lt;
    starts = record { node = _; is = enters; other = λ id h. refl };
    lays = λ {G} {m} {stop} {k} {rest} w leads lands laid.
        let c = l.within in
        let before : foot < P.node_count g' = omega (arith, f.foot_to, c.room) in
        let out : Leads (P.edges g foot) (G.edges foot) exit =
          rw (w.edges foot f.foot_from before (omega (arith, f.foot_to, le))) l.leads in
        let at_exit : Lands _ G exit = record {
          node = Node.exit_scope;
          is = w.weights exit from' lt' ∙ exits;
          other = λ id h. refl;
        } in
        rw (scope_visits f.visits k) (
          Laid.enter (w.weights enter from lt ∙ enters) (w.edges enter from lt apart ∙ p) (
            f.lays (Within-Linked P (omega arith) (λ n h h'. omega (arith, h', le)) l w) out at_exit
              (Laid.exit (w.weights exit from' lt' ∙ exits) (leads.alone bare) laid)));
  }
