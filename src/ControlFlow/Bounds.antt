-- ===== src/ControlFlow/Bounds.antt =====
-- The steps of smpl/src/analysis/control_flow.rs join nodes of the graph only: each keeps its heads and
-- feet below the number of nodes.
use smpl_mirror.Common.{
  ℕ, ◌≡◌, refl, List, [], ◌∷◌, Option, none, some, Bool, true, false, Outcome, arith, suc, ◌<◌, ◌≤◌,
}
use smpl_mirror.Ast
use smpl_mirror.Ast.{
  Block, Stmt, Branch, Branches, OptBlock, no_stmts, and_stmt, branch_of, no_branches, and_branch,
  no_block, default_block,
}
use smpl_mirror.ExprFlow
use smpl_mirror.ExprFlow.{M, flatten, flatten_path}
use smpl_mirror.ExprFlow.Steps.{Good, Done}
use smpl_mirror.ExprFlow.Total.{flatten-Done}
use smpl_mirror.ControlFlow.{Node, BlockNode, Edge, normal, on_true, on_false, back_edge}
use smpl_mirror.ControlFlow.Petgraph.{Petgraph}
use smpl_mirror.ControlFlow.Generate.{
  ControlFlowError, BranchData, InternalLoopData, Cursor, Gen, and_then, flowing, new_id, add_node,
  add_edge, link, append_node_index, append_node, flush, with_condition, finish_branch, close_loop,
  open_loop, scoped, to_loop,
}
use smpl_mirror.ControlFlow.Errors.{Checked, only-Checked, weaken-Checked, add_edge_lem}

-- The head and the foot are both there or both missing, and are numbers below the given one.
pub data Paired : Option ℕ → Option ℕ → ℕ → Type 0 where
  neither : {n : ℕ} → Paired none none n
  both : {h f n : ℕ} → h < n → f < n → Paired (some h) (some f) n

pub widen-Paired : {h f : Option ℕ} {n n' : ℕ} → Paired h f n → n ≤ n' → Paired h f n'
widen-Paired Paired.neither le = Paired.neither
widen-Paired (Paired.both i j) le = Paired.both (omega (arith, i, le)) (omega (arith, j, le))

-- The head is there, and with any foot that is there both are.
abbrev pub Headed : Option ℕ → ℕ → Type 0
Headed h n = (foot : ℕ) → foot < n → Paired h (some foot) n

abbrev pub in_a_loop : InternalLoopData → Bool
in_a_loop none = false
in_a_loop (some loop) = true

module _ (P : Petgraph) (lo : ℕ) where
  abbrev pub count : Gen P.Graph → ℕ
  count s = P.node_count s.graph

  -- No node is lost.
  abbrev pub Fine : {A : Type 0} → ℕ → A → Gen P.Graph → Type 0
  Fine n a s = (n ≤ count s) × Good lo s.flow

  -- The head and the previous node are nodes, or both missing; and the same at the end.
  abbrev pub Kept : ℕ → Cursor → Gen P.Graph → Type 0
  Kept n c s = Paired c.head c.previous (count s) × (n ≤ count s) × Good lo s.flow

  abbrev pub Built : ℕ → BranchData → Gen P.Graph → Type 0
  Built n b s = Paired b.head b.foot (count s) × (n ≤ count s) × Good lo s.flow

  -- The two nodes of a loop or a branch.
  abbrev pub Ends : ℕ → ℕ → ℕ → Gen P.Graph → Type 0
  Ends n h f s = (h < count s) × (f < count s) × (n ≤ count s) × Good lo s.flow

  abbrev pub Same : {A : Type 0} → ℕ → A → Gen P.Graph → Type 0
  Same n a s = (count s ≡ n) × Good lo s.flow

  pub flowing-Checked :
      {A : Type 0} {m : M A} {R : A → ExprFlow.State → Type 0} (s : Gen P.Graph)
      → Done lo s.flow m R
      → Checked (Same (count s)) (flowing m s) none
  unfolding flowing
  flowing-Checked s d = rw d.runs (Checked.runs (refl, d.good))

  pub new_id-Checked :
      (s : Gen P.Graph) → Good lo s.flow → Checked (Same (count s)) (flowing new_id s) none
  unfolding flowing
  new_id-Checked s g =
      Checked.runs
        (refl, record { below = λ id le. g.below id (omega arith); mapped = g.mapped; fns = g.fns })

  pub flatten-Checked :
      (e : Ast.Expr) (s : Gen P.Graph)
      → Good lo s.flow
      → Checked (Same (count s)) (flowing (flatten e) s) none
  flatten-Checked e s g = flowing-Checked s (flatten-Done lo e s.flow g)

  pub node-Checked :
      (w : Node) (s : Gen P.Graph)
      → Good lo s.flow
      → Checked
          (λ n s'. (n ≡ count s) × (count s' ≡ suc (count s)) × Good lo s'.flow)
          (add_node P w s)
          none
  unfolding add_node
  node-Checked w s g = Checked.runs (refl, P.node_count-add_node w s.graph, g)

  -- An edge between nodes.
  pub edge-Checked :
      (a b : ℕ) (e : Edge) (s : Gen P.Graph)
      → a < count s
      → b < count s
      → Good lo s.flow
      → Checked (Same (count s)) (add_edge P a b e s) none
  edge-Checked a b e s i j g =
      rw (add_edge_lem P a b e s i j) (Checked.runs (P.node_count-add_edge a b e s.graph i j, g))

  pub append_node_index-at :
      (h f : Option ℕ) (bs : List BlockNode) (n : ℕ) (s : Gen P.Graph)
      → Paired h f (count s)
      → n < count s
      → Good lo s.flow
      → Checked
          (λ c' s'.
            Headed c'.head (count s)
            × Paired c'.head c'.previous (count s)
            × (count s' ≡ count s)
            × Good lo s'.flow)
          (append_node_index P (record { head = h; previous = f; current_block = bs }) n s)
          none
  unfolding append_node_index link
  append_node_index-at none none bs n s Paired.neither j g =
      Checked.runs ((λ foot k. Paired.both j k), Paired.both j j, refl, g)
  append_node_index-at none (some f) bs n s p j g = elim p [ ]
  append_node_index-at (some h) none bs n s p j g = elim p [ ]
  append_node_index-at (some h) (some f) bs n s (Paired.both i k) j g =
      only-Checked (edge-Checked f n normal s k j g) (λ linked s₁ (c₁, g₁).
        Checked.runs ((λ foot k'. Paired.both i k'), Paired.both i j, c₁, g₁))

  pub append_node-at :
      (c : Cursor) (w : Node) (s : Gen P.Graph)
      → Paired c.head c.previous (count s)
      → Good lo s.flow
      → Checked (Kept (count s)) (append_node P c w s) none
  unfolding append_node
  append_node-at c w s p g = only-Checked (node-Checked w s g) (λ n s₁ (is, more, g₁).
      weaken-Checked
        (append_node_index-at c.head c.previous c.current_block n s₁
          (widen-Paired p (omega (arith, more))) (omega (arith, is, more)) g₁)
        (λ c₁ s₂ (headed, p₂, same, g₂). (rw same p₂, omega (arith, same, more), g₂)))

  pub flush-at :
      (h f : Option ℕ) (bs : List BlockNode) (s : Gen P.Graph)
      → Paired h f (count s)
      → Good lo s.flow
      → Checked
          (Kept (count s))
          (flush P (record { head = h; previous = f; current_block = bs }) s)
          none
  unfolding flush
  flush-at h f [] s p g = Checked.runs (p, omega arith, g)
  flush-at h f (b ∷ bs) s p g =
      append_node-at (record { head = h; previous = f; current_block = [] }) (Node.block (b ∷ bs)) s
        p g

  pub scoped-at :
      (h f : Option ℕ) (enter exit : ℕ) (s : Gen P.Graph)
      → Paired h f (count s)
      → enter < count s
      → exit < count s
      → Good lo s.flow
      → Checked (Same (count s)) (scoped P (record { head = h; foot = f }) enter exit s) none
  scoped-at none none enter exit s Paired.neither i j g = edge-Checked enter exit normal s i j g
  scoped-at none (some f) enter exit s p i j g = elim p [ ]
  scoped-at (some h) none enter exit s p i j g = elim p [ ]
  scoped-at (some h) (some f) enter exit s (Paired.both k l) i j g =
      only-Checked (edge-Checked enter h normal s i k g) (λ linked s₁ (c₁, g₁).
        weaken-Checked
          (edge-Checked f exit normal s₁ (omega (arith, c₁, l)) (omega (arith, c₁, j)) g₁)
          (λ linked' s₂ (c₂, g₂). (omega (arith, c₁, c₂), g₂)))

  pub close_loop-at :
      (h f : Option ℕ) (loop_head loop_foot : ℕ) (s : Gen P.Graph)
      → Paired h f (count s)
      → loop_head < count s
      → loop_foot < count s
      → Good lo s.flow
      → Checked
          (Fine (count s))
          (close_loop P (record { head = h; foot = f }) loop_head loop_foot s)
          none
  unfolding close_loop
  close_loop-at none none loop_head loop_foot s Paired.neither i j g =
      only-Checked (edge-Checked loop_head loop_foot on_false s i j g) (λ exits s₁ (c₁, g₁).
        weaken-Checked
          (edge-Checked loop_head loop_foot on_true s₁ (omega (arith, c₁, i)) (omega (arith, c₁, j))
            g₁)
          (λ a s₂ (c₂, g₂). (omega (arith, c₁, c₂), g₂)))
  close_loop-at none (some f) loop_head loop_foot s p i j g = elim p [ ]
  close_loop-at (some h) none loop_head loop_foot s p i j g = elim p [ ]
  close_loop-at (some h) (some f) loop_head loop_foot s (Paired.both k l) i j g =
      only-Checked (edge-Checked loop_head loop_foot on_false s i j g) (λ exits s₁ (c₁, g₁).
        only-Checked (node-Checked Node.enter_scope s₁ g₁) (λ enter s₂ (is₂, c₂, g₂).
          only-Checked (node-Checked Node.exit_scope s₂ g₂) (λ exit s₃ (is₃, c₃, g₃).
            only-Checked
              (edge-Checked loop_head enter on_true s₃ (omega (arith, c₁, c₂, c₃, i))
                (omega (arith, c₂, c₃, is₂)) g₃)
              (λ enters s₄ (c₄, g₄).
                only-Checked
                  (edge-Checked enter h normal s₄ (omega (arith, c₂, c₃, c₄, is₂))
                    (omega (arith, c₁, c₂, c₃, c₄, k)) g₄)
                  (λ into s₅ (c₅, g₅).
                    only-Checked
                      (edge-Checked f exit normal s₅ (omega (arith, c₁, c₂, c₃, c₄, c₅, l))
                        (omega (arith, c₃, c₄, c₅, is₃)) g₅)
                      (λ out s₆ (c₆, g₆).
                        weaken-Checked
                          (edge-Checked exit loop_foot normal s₆
                            (omega (arith, c₃, c₄, c₅, c₆, is₃))
                            (omega (arith, c₁, c₂, c₃, c₄, c₅, c₆, j)) g₆)
                          (λ a s₇ (c₇, g₇). (omega (arith, c₁, c₂, c₃, c₄, c₅, c₆, c₇), g₇))))))))

  pub flush-Checked :
      {n : ℕ} (c : Cursor) (s : Gen P.Graph) → Kept n c s → Checked (Kept n) (flush P c s) none
  flush-Checked c s (p, le, g) =
      weaken-Checked (flush-at c.head c.previous c.current_block s p g)
        (λ c₁ s₁ (p₁, le₁, g₁). (p₁, omega (arith, le, le₁), g₁))

  pub open_loop-Checked :
      (condition : Ast.Expr) (s : Gen P.Graph)
      → Good lo s.flow
      → Checked (λ (h, f, id) s'. Ends (count s) h f s') (open_loop P condition s) none
  unfolding open_loop
  open_loop-Checked condition s g = only-Checked (new_id-Checked s g) (λ id s₁ (c₁, g₁).
      only-Checked (flatten-Checked condition s₁ g₁) (λ e s₂ (c₂, g₂).
        only-Checked (node-Checked (Node.loop_head id e) s₂ g₂) (λ h s₃ (is₃, c₃, g₃).
          only-Checked (node-Checked (Node.loop_foot id) s₃ g₃) (λ f s₄ (is₄, c₄, g₄).
            let h_to : h < count s₄ = omega (arith, is₃, c₃, c₄) in
            let f_to : f < count s₄ = omega (arith, is₄, c₄) in
            only-Checked (edge-Checked f h back_edge s₄ f_to h_to g₄) (λ back s₅ (c₅, g₅).
              Checked.runs {a = (h, f, id)} {s = s₅} (
                omega (arith, c₅, h_to),
                omega (arith, c₅, f_to),
                omega (arith, c₁, c₂, c₃, c₄, c₅),
                g₅,
              ))))))

  pub with_condition-Checked :
      (condition : Option Ast.Expr) (enter exit : ℕ) (s : Gen P.Graph)
      → enter < count s
      → exit < count s
      → Good lo s.flow
      → Checked (λ (h, f) s'. Ends (count s) h f s') (with_condition P condition enter exit s) none
  unfolding with_condition
  with_condition-Checked none enter exit s i j g = Checked.runs (i, j, omega arith, g)
  with_condition-Checked (some condition) enter exit s i j g =
      only-Checked (new_id-Checked s g) (λ id s₁ (c₁, g₁).
        only-Checked (flatten-Checked condition s₁ g₁) (λ e s₂ (c₂, g₂).
          only-Checked (node-Checked (Node.branch_split id e) s₂ g₂) (λ h s₃ (is₃, c₃, g₃).
            only-Checked (node-Checked (Node.branch_merge id) s₃ g₃) (λ f s₄ (is₄, c₄, g₄).
              let h_to : h < count s₄ = omega (arith, is₃, c₃, c₄) in
              let f_to : f < count s₄ = omega (arith, is₄, c₄) in
              only-Checked
                (edge-Checked h enter on_true s₄ h_to (omega (arith, c₁, c₂, c₃, c₄, i)) g₄)
                (λ linked s₅ (c₅, g₅).
                  only-Checked
                    (edge-Checked exit f normal s₅ (omega (arith, c₁, c₂, c₃, c₄, c₅, j))
                      (omega (arith, c₅, f_to)) g₅)
                    (λ linked' s₆ (c₆, g₆). Checked.runs {a = (h, f)} {s = s₆} (
                      omega (arith, c₅, c₆, h_to),
                      omega (arith, c₅, c₆, f_to),
                      omega (arith, c₁, c₂, c₃, c₄, c₅, c₆),
                      g₆,
                    )))))))

  pub finish_branch-Checked :
      {n : ℕ} (condition : Option Ast.Expr) (b : BranchData) (s : Gen P.Graph)
      → Built n b s
      → Checked (λ (h, f) s'. Ends n h f s') (finish_branch P condition b s) none
  unfolding finish_branch
  finish_branch-Checked condition b s (p, le, g) =
      only-Checked (node-Checked Node.enter_scope s g) (λ enter s₁ (is₁, c₁, g₁).
        only-Checked (node-Checked Node.exit_scope s₁ g₁) (λ exit s₂ (is₂, c₂, g₂).
          let enter_to : enter < count s₂ = omega (arith, is₁, c₁, c₂) in
          let exit_to : exit < count s₂ = omega (arith, is₂, c₂) in
          only-Checked
            (scoped-at b.head b.foot enter exit s₂ (widen-Paired p (omega (arith, c₁, c₂))) enter_to
              exit_to g₂)
            (λ linked s₃ (c₃, g₃).
              weaken-Checked
                (with_condition-Checked condition enter exit s₃ (omega (arith, c₃, enter_to))
                  (omega (arith, c₃, exit_to)) g₃)
                (λ (h, f) s₄ (i, j, le₄, g₄). (i, j, omega (arith, le, c₁, c₂, c₃, le₄), g₄)))))

  pub appended-Checked :
      {n : ℕ} (w : Node) {e : Option ControlFlowError}
      {r : Outcome ControlFlowError (Cursor × Gen P.Graph)}
      → Checked (Kept n) r e
      → Checked (Kept n) (and_then r (λ c. append_node P c w)) e
  appended-Checked w d = only-Checked d (λ c s (p, le, g).
      weaken-Checked (append_node-at c w s p g)
        (λ c₁ s₁ (p₁, le₁, g₁). (p₁, omega (arith, le, le₁), g₁)))

  pub to_loop-Checked :
      {n : ℕ} (x : ControlFlowError) (node : ℕ → Node) (loop_data : InternalLoopData) (c : Cursor)
      (s : Gen P.Graph)
      → Kept n c s
      → Checked
          (Kept n)
          (to_loop P x node loop_data c s)
          (elim (in_a_loop loop_data) [ true ↦ none | false ↦ some x ])
  to_loop-Checked x node none c s k = Checked.fails
  to_loop-Checked x node (some (loop_head, loop_foot, id)) c s k =
      appended-Checked (node id) (flush-Checked c s k)

  pub index-Checked :
      (c : Cursor) (n : ℕ) (s : Gen P.Graph)
      → Paired c.head c.previous (count s)
      → n < count s
      → Good lo s.flow
      → Checked
          (λ c' s'.
            Headed c'.head (count s)
            × Paired c'.head c'.previous (count s)
            × (count s' ≡ count s)
            × Good lo s'.flow)
          (append_node_index P c n s)
          none
  index-Checked c n s p i g = append_node_index-at c.head c.previous c.current_block n s p i g
