-- ===== src/Drawing/Branching.antt =====
-- An `if` of smpl/src/analysis/control_flow.rs: the nodes of a branch, and the path that is taken on
-- false.
use smpl_mirror.Common.{ℕ, suc, [], ◌∷◌, some, ◌⊎◌, ◌≡◌, refl, ◌∙◌, ◌≤◌, ◌<◌, arith}
use smpl_mirror.TypedAst.{Expr}
use smpl_mirror.ControlFlow.{Node, Edge, on_true, on_false}
use smpl_mirror.ControlFlow.Petgraph.{Petgraph, cfg_of}
use smpl_mirror.ByteGen.FirstPass.Tree.{Tree}
use smpl_mirror.ByteGen.FirstPass.Riding.{Laid, Fork}
use smpl_mirror.Drawing.Graphs.{Within, Spans, Linked, Linked-Spans, Spans-narrow}
use smpl_mirror.Drawing.Fragment.{Fragment}
use smpl_mirror.Drawing.Tails.{Tail, Fragment-Tail, branch-Fragment}

module _ (P : Petgraph) where
  -- A branch whose path on true is there.
  pub record OpenBranch (lo id : ℕ) (condition : Expr) (split merge : ℕ) (g : P.Graph) (t : Tree)
      : Type 0 where
    pub inner : P.Graph
    pub first : ℕ
    pub ids : ℕ
    pub enter : ℕ
    pub exit : ℕ
    pub fragment : Fragment P lo first inner ids enter exit t
    pub linked : Linked P lo inner g exit merge
    pub at_split : split ≡ P.node_count inner
    pub at_merge : merge ≡ suc split
    pub inside : merge < P.node_count g
    pub is : P.weight g split ≡ some (Node.branch_split id condition)
    pub merge_is : P.weight g merge ≡ some (Node.branch_merge id)
    pub yes : P.edges g split ≡ (on_true, enter) ∷ []

  -- The branch with both paths, but for the edge of the last node.
  pub record BothPaths (lo id : ℕ) (condition : Expr) (split merge : ℕ) (g : P.Graph) (t f : Tree)
      : Type 0 where
    pub yes_start : ℕ
    pub no_start : ℕ
    pub split_from : lo ≤ split
    pub at_merge : merge ≡ suc split
    pub inside : merge < P.node_count g
    pub is : P.weight g split ≡ some (Node.branch_split id condition)
    pub merge_is : P.weight g merge ≡ some (Node.branch_merge id)
    pub fork : Fork (cfg_of P g 0) split (on_true, yes_start) (on_false, no_start)
    pub yes : Tail P lo g yes_start merge t
    pub no : Tail P lo g no_start merge f

  pub move-OpenBranch :
      {lo id split merge : ℕ} {condition : Expr} {g g' : P.Graph} {t : Tree}
      → Spans P lo merge g g'
      → P.weight g' merge ≡ P.weight g merge
      → OpenBranch lo id condition split merge g t
      → OpenBranch lo id condition split merge g' t
  move-OpenBranch {split = split} s w x =
      let i = x.at_split in
      let j = x.at_merge in
      let f = x.fragment in
      let from : _ ≤ split = omega (arith, f.few, i) in
      record {
        inner = x.inner;
        first = x.first;
        ids = x.ids;
        enter = x.enter;
        exit = x.exit;
        fragment = f;
        linked =
            Linked-Spans P f.foot_from f.foot_to x.linked
              (Spans-narrow P (omega arith) (omega (arith, i, j)) s);
        at_split = i;
        at_merge = j;
        inside = omega (arith, x.inside, s.more);
        is = s.weights split from (omega (arith, j)) ∙ x.is;
        merge_is = w ∙ x.merge_is;
        yes = s.edges split from (omega (arith, j)) ∙ x.yes;
      }

  -- The path on false is there too.
  pub close-OpenBranch :
      {lo id split merge start : ℕ} {condition : Expr} {g g' : P.Graph} {t f : Tree}
      → Spans P lo split g g'
      → P.weight g' split ≡ P.weight g split
      → P.weight g' merge ≡ P.weight g merge
      → ((x : Edge × ℕ)
          → P.edges g split ≡ x ∷ []
          → (P.edges g' split ≡ x ∷ (on_false, start) ∷ [])
            ⊎ (P.edges g' split ≡ (on_false, start) ∷ x ∷ []))
      → Tail P lo g' start merge f
      → OpenBranch lo id condition split merge g t
      → BothPaths lo id condition split merge g' t f
  close-OpenBranch {start = start} s w w' forks tail x =
      let i = x.at_split in
      let j = x.at_merge in
      let f = x.fragment in
      record {
        yes_start = x.enter;
        no_start = start;
        split_from = omega (arith, f.few, i);
        at_merge = j;
        inside = omega (arith, x.inside, s.more);
        is = w ∙ x.is;
        merge_is = w' ∙ x.merge_is;
        fork = forks (on_true, x.enter) x.yes;
        yes =
            Fragment-Tail P (omega arith) (omega (arith, f.few, i, j))
              (omega (arith, x.inside, s.more)) (λ n h h'. omega (arith, h', i, j)) f
              (Linked-Spans P f.foot_from f.foot_to x.linked
                (Spans-narrow P (omega arith) (omega (arith, i)) s))
              (w' ∙ x.merge_is) (λ i. refl);
        no = tail;
      }

  pub BothPaths-Fragment :
      {lo id split merge first ids : ℕ} {condition : Expr} {g : P.Graph} {t f : Tree}
      → 0 < lo
      → P.edges g merge ≡ []
      → BothPaths lo id condition split merge g t f
      → Fragment P lo first g ids split merge (Tree.branch id condition t f Tree.done)
  BothPaths-Fragment some_before bare x =
      let j = x.at_merge in
      branch-Fragment P x.split_from (omega (arith, x.split_from, j)) (omega (arith, j)) x.inside
        (omega (arith, x.inside, j)) x.is x.fork x.merge_is bare x.yes x.no some_before

  -- The branch ends a path of another one.
  pub BothPaths-Tail :
      {lo lo' id split merge next : ℕ} {condition : Expr} {e : Edge} {g : P.Graph} {t f : Tree}
      → lo' ≤ lo
      → 0 < lo
      → next < lo
      → P.edges g merge ≡ (e, next) ∷ []
      → BothPaths lo id condition split merge g t f
      → Tail P lo' g split next (Tree.branch id condition t f Tree.done)
  BothPaths-Tail {split = split} {merge = merge} le some_before before out x =
      let j = x.at_merge in
      let from = x.split_from in
      let to = x.inside in
      record {
        visits = 1;
        few = omega (arith, le, from, j, to);
        lays = λ {G} w.
            let w' : Within P _ _ merge G = record {
              room = w.room;
              weights = λ n h h'. w.weights n (omega (arith, h, le)) h';
              edges =
                  λ n h h' other. w.edges n (omega (arith, h, le)) h' (omega (arith, h, before));
            } in
            Laid.branch (w.weights split (omega (arith, le, from)) (omega (arith, to, j)) ∙ x.is)
              (rw
                (w.edges split (omega (arith, le, from)) (omega (arith, to, j))
                  (omega (arith, from, before)))
                x.fork)
              (x.yes.lays w') (omega (arith, x.yes.few, w.room, some_before)) (x.no.lays w')
              (omega (arith, x.no.few, w.room, some_before))
              (w.weights merge (omega (arith, le, from, j)) to ∙ x.merge_is)
              (w.edges merge (omega (arith, le, from, j)) to (omega (arith, from, j, before)) ∙ out)
              Laid.done;
      }
