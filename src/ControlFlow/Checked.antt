-- ===== src/ControlFlow/Checked.antt =====
-- The outcomes of smpl/src/analysis/control_flow.rs: the errors at `break` and `continue` outside of
-- loops, and a graph otherwise.
use smpl_mirror.Common.{
  ℕ, ◌≡◌, refl, List, Option, none, some, Bool, true, false, Outcome, arith, ◌<◌, ◌≤◌,
}
use smpl_mirror.Ast
use smpl_mirror.Ast.{
  Block, Stmt, Branch, Branches, OptBlock, no_stmts, and_stmt, branch_of, no_branches, and_branch,
  no_block, default_block,
}
use smpl_mirror.ExprFlow
use smpl_mirror.ExprFlow.{M, flatten, flatten_path}
use smpl_mirror.ExprFlow.Steps.{Good, no_fns-Good}
use smpl_mirror.ExprFlow.Total.{flatten_path_lem}
use smpl_mirror.ControlFlow.{Node, BlockNode, normal, on_false}
use smpl_mirror.ControlFlow.Petgraph.{Petgraph}
use smpl_mirror.ControlFlow.Generate.{
  ControlFlowError, bad_break, bad_continue, BranchData, InternalLoopData, Cursor, begin, Gen, GenM,
  pure, and_then, add_node, link, append_node_index, append_node, generate_stmt,
  generate_scoped_block, generate_conditional, stack_branches, stack_default, generate_body,
  generate, join, return_unit, finished,
}
pub use smpl_mirror.ControlFlow.Errors.{
  first, first_assoc, stmt_error, first_error, branch_error, branches_error, default_error, Checked,
  then-Checked, only-Checked, weaken-Checked, add_edge_lem, edge-last, edge-then,
}
use smpl_mirror.ControlFlow.Bounds.{
  flowing-Checked, new_id-Checked, flatten-Checked, node-Checked, edge-Checked, append_node-at,
  close_loop-at, flush-Checked, open_loop-Checked, finish_branch-Checked, appended-Checked,
  to_loop-Checked, index-Checked, count, Fine, Kept, Built, Ends, Paired, widen-Paired, in_a_loop,
}

module _ (P : Petgraph) (lo : ℕ) where
  mutual
    unfolding generate_stmt generate_scoped_block generate_conditional stack_branches stack_default
        stmt_error first_error branch_error branches_error default_error

    stmt-Checked :
        {n : ℕ} (stmt : Stmt) (loop_data : InternalLoopData) (c : Cursor) (s : Gen P.Graph)
        → Kept P lo n c s
        → Checked
            (Kept P lo n)
            (generate_stmt P stmt loop_data c s)
            (stmt_error (in_a_loop loop_data) stmt)
    stmt-Checked (Ast.expr e) loop_data c s (p, le, g) =
        only-Checked (flatten-Checked P lo e s g)
          (λ a s₁ (same, g₁). Checked.runs {s = s₁} (rw same p, omega (arith, le, same), g₁))
    stmt-Checked (Ast.assignment path e) loop_data c s (p, le, g) =
        only-Checked (flowing-Checked P lo s (flatten_path_lem lo path s.flow g)) (λ a s₁ (c₁, g₁).
          only-Checked (flatten-Checked P lo e s₁ g₁)
            (λ a s₂ (c₂, g₂). Checked.runs {s = s₂} (rw (c₂, c₁) p, omega (arith, le, c₁, c₂), g₂)))
    stmt-Checked (Ast.local_var_decl ann x e) loop_data c s (p, le, g) =
        only-Checked (flatten-Checked P lo e s g) (λ a s₁ (c₁, g₁).
          only-Checked (new_id-Checked P lo s₁ g₁)
            (λ a s₂ (c₂, g₂). Checked.runs {s = s₂} (rw (c₂, c₁) p, omega (arith, le, c₁, c₂), g₂)))
    stmt-Checked Ast.return_stmt loop_data c s k =
        appended-Checked P lo (Node.return none) (flush-Checked P lo c s k)
    stmt-Checked (Ast.return_expr e) loop_data c s k =
        only-Checked (flush-Checked P lo c s k) (λ c₁ s₁ (p₁, le₁, g₁).
          only-Checked (flatten-Checked P lo e s₁ g₁) (λ a s₂ (same, g₂).
            weaken-Checked (append_node-at P lo c₁ (Node.return (some a)) s₂ (rw same p₁) g₂)
              (λ c₃ s₃ (p₃, le₃, g₃). (p₃, omega (arith, le₁, same, le₃), g₃))))
    stmt-Checked Ast.break_stmt loop_data c s k =
        to_loop-Checked P lo bad_break Node.break loop_data c s k
    stmt-Checked Ast.continue_stmt loop_data c s k =
        to_loop-Checked P lo bad_continue Node.continue loop_data c s k
    stmt-Checked (Ast.while_stmt condition body) loop_data c s k =
        then-Checked (flush-Checked P lo c s k) (λ c₁ s₁ (p₁, le₁, g₁).
          then-Checked (open_loop-Checked P lo condition s₁ g₁)
            (λ (h, f, id) s₂ (h_to, f_to, le₂, g₂).
              then-Checked (index-Checked P lo c₁ h s₂ (widen-Paired p₁ le₂) h_to g₂)
                (λ c₂ s₃ (headed, p₃, same, g₃).
                  only-Checked
                    (block-Checked {n = count P lo s₃} body (some (h, f, id)) begin s₃
                      (Paired.neither, omega arith, g₃))
                    (λ b s₄ (p₄, le₄, g₄).
                      only-Checked
                        (close_loop-at P lo b.head b.foot h f s₄ p₄ (omega (arith, h_to, same, le₄))
                          (omega (arith, f_to, same, le₄)) g₄)
                        (λ a s₅ (le₅, g₅). Checked.runs {s = s₅} (
                          widen-Paired (headed f f_to) (omega (arith, same, le₄, le₅)),
                          omega (arith, le₁, le₂, same, le₄, le₅),
                          g₅,
                        ))))))
    stmt-Checked (Ast.if_stmt branch others default) loop_data c s k =
        then-Checked (flush-Checked P lo c s k) (λ c₁ s₁ (p₁, le₁, g₁).
          then-Checked (conditional-Checked branch loop_data s₁ g₁)
            (λ (h, f) s₂ (h_to, f_to, le₂, g₂).
              then-Checked (index-Checked P lo c₁ h s₂ (widen-Paired p₁ le₂) h_to g₂)
                (λ c₂ s₃ (headed, p₃, same, g₃).
                  only-Checked
                    (branches-Checked others loop_data _
                      (λ h' f' s₄ i j g₄. default-Checked default loop_data h' f' s₄ i j g₄) h f s₃
                      (omega (arith, h_to, same)) (omega (arith, f_to, same)) g₃)
                    (λ a s₅ (le₅, g₅). Checked.runs {s = s₅} (
                      widen-Paired (headed f f_to) (omega (arith, same, le₅)),
                      omega (arith, le₁, le₂, same, le₅),
                      g₅,
                    )))))

    block-Checked :
        {n : ℕ} (block : Block) (loop_data : InternalLoopData) (c : Cursor) (s : Gen P.Graph)
        → Kept P lo n c s
        → Checked
            (Built P lo n)
            (generate_scoped_block P block loop_data c s)
            (first_error (in_a_loop loop_data) block)
    block-Checked no_stmts loop_data c s k =
        only-Checked (flush-Checked P lo c s k) (λ c₁ s₁ k₁. Checked.runs k₁)
    block-Checked (and_stmt stmt stmts) loop_data c s k =
        then-Checked (stmt-Checked stmt loop_data c s k)
          (λ c₁ s₁ k₁. block-Checked stmts loop_data c₁ s₁ k₁)

    conditional-Checked :
        (branch : Branch) (loop_data : InternalLoopData) (s : Gen P.Graph)
        → Good lo s.flow
        → Checked
            (λ (h, f) s'. Ends P lo (count P lo s) h f s')
            (generate_conditional P branch loop_data s)
            (branch_error (in_a_loop loop_data) branch)
    conditional-Checked (branch_of condition body) loop_data s g =
        only-Checked
          (block-Checked {n = count P lo s} body loop_data begin s (Paired.neither, omega arith, g))
          (λ b s₁ k₁. finish_branch-Checked P lo (some condition) b s₁ k₁)

    branches-Checked :
        (others : Branches) (loop_data : InternalLoopData)
        (last : ℕ → ℕ → GenM (Gen P.Graph) (Unit {0})) {e : Option ControlFlowError}
        → ((h f : ℕ) (s : Gen P.Graph)
            → h < count P lo s
            → f < count P lo s
            → Good lo s.flow
            → Checked (Fine P lo (count P lo s)) (last h f s) e)
        → (h f : ℕ) (s : Gen P.Graph) → h < count P lo s
        → f < count P lo s
        → Good lo s.flow
        → Checked
            (Fine P lo (count P lo s))
            (stack_branches P others loop_data last h f s)
            (first (branches_error (in_a_loop loop_data) others) e)
    branches-Checked no_branches loop_data last closes h f s i j g = closes h f s i j g
    branches-Checked (and_branch branch others) loop_data last {e} closes h f s i j g =
        rw
          (first_assoc (branch_error (in_a_loop loop_data) branch)
            (branches_error (in_a_loop loop_data) others) e)
          (then-Checked (conditional-Checked branch loop_data s g)
            (λ (h', f') s₁ (h'_to, f'_to, le₁, g₁).
              then-Checked (edge-Checked P lo h h' on_false s₁ (omega (arith, i, le₁)) h'_to g₁)
                (λ splits s₂ (c₂, g₂).
                  then-Checked
                    (edge-Checked P lo f' f normal s₂ (omega (arith, f'_to, c₂))
                      (omega (arith, j, le₁, c₂)) g₂)
                    (λ merges s₃ (c₃, g₃).
                      weaken-Checked
                        (branches-Checked others loop_data last closes h' f' s₃
                          (omega (arith, h'_to, c₂, c₃)) (omega (arith, f'_to, c₂, c₃)) g₃)
                        (λ a s₄ (le₄, g₄). (omega (arith, le₁, c₂, c₃, le₄), g₄))))))

    default-Checked :
        (default : OptBlock) (loop_data : InternalLoopData) (h f : ℕ) (s : Gen P.Graph)
        → h < count P lo s
        → f < count P lo s
        → Good lo s.flow
        → Checked
            (Fine P lo (count P lo s))
            (stack_default P default loop_data h f s)
            (default_error (in_a_loop loop_data) default)
    default-Checked no_block loop_data h f s i j g =
        weaken-Checked (edge-Checked P lo h f on_false s i j g)
          (λ a s₁ (c₁, g₁). (omega (arith, c₁), g₁))
    default-Checked (default_block block) loop_data h f s i j g =
        only-Checked
          (block-Checked {n = count P lo s} block loop_data begin s
            (Paired.neither, omega arith, g))
          (λ b s₁ k₁.
            only-Checked (finish_branch-Checked P lo none b s₁ k₁)
              (λ (h', f') s₂ (h'_to, f'_to, le₂, g₂).
                only-Checked (edge-Checked P lo h h' on_false s₂ (omega (arith, i, le₂)) h'_to g₂)
                  (λ splits s₃ (c₃, g₃).
                    weaken-Checked
                      (edge-Checked P lo f' f normal s₃ (omega (arith, f'_to, c₃))
                        (omega (arith, j, le₂, c₃)) g₃)
                      (λ a s₄ (c₄, g₄). (omega (arith, le₂, c₃, c₄), g₄)))))

  join-at :
      (head before : ℕ) (h f : Option ℕ) (bs : List BlockNode) (s : Gen P.Graph)
      → Paired h f (count P lo s)
      → head < count P lo s
      → before < count P lo s
      → Good lo s.flow
      → Checked
          (Kept P lo (count P lo s))
          (join P
            (record { head = some head; previous = some before; current_block = bs })
            (record { head = h; foot = f })
            s)
          none
  unfolding link
  join-at head before none none bs s Paired.neither i j g =
      Checked.runs (Paired.both i j, omega arith, g)
  join-at head before none (some f) bs s p i j g = elim p [ ]
  join-at head before (some h) none bs s p i j g = elim p [ ]
  join-at head before (some h) (some f) bs s (Paired.both k l) i j g =
      only-Checked (edge-Checked P lo before h normal s j k g) (λ linked s₁ (c₁, g₁).
        Checked.runs {s = s₁} (rw c₁ (Paired.both {h = head} {f = f} i l), omega (arith, c₁), g₁))

  return_unit-Checked :
      {n : ℕ} (returns_unit : Bool) (c : Cursor) (s : Gen P.Graph)
      → Kept P lo n c s
      → Checked (Kept P lo n) (return_unit P returns_unit c s) none
  return_unit-Checked true c s k = appended-Checked P lo (Node.return none) (Checked.runs k)
  return_unit-Checked false c s k = Checked.runs k

  started-at :
      (start : ℕ) (s : Gen P.Graph)
      → start < count P lo s
      → Good lo s.flow
      → Checked
          (λ c s'.
            (c.head ≡ some start)
            × ((before : ℕ) × (c.previous ≡ some before) × (before < count P lo s'))
            × (count P lo s ≤ count P lo s')
            × Good lo s'.flow)
          (append_node P
            (record begin { head = some start; previous = some start })
            Node.enter_scope
            s)
          none
  unfolding append_node append_node_index link
  started-at start s i g =
      let c : Cursor = record begin { head = some start; previous = some start } in
      only-Checked {f = append_node_index P c} (node-Checked P lo Node.enter_scope s g)
        (λ n s₁ (is, more, g₁).
          only-Checked {f = λ linked. pure (record c { previous = some n })}
            (edge-Checked P lo start n normal s₁ (omega (arith, i, more)) (omega (arith, is, more))
              g₁)
            (λ linked s₂ (same, g₂).
              Checked.runs {s = s₂}
                (refl, (n, refl, omega (arith, is, more, same)), omega (arith, more, same), g₂)))

  join-Checked :
      {n start : ℕ} (c : Cursor) (b : BranchData) (s : Gen P.Graph)
      → c.head ≡ some start
      → ((before : ℕ) × (c.previous ≡ some before) × (before < count P lo s))
      → start < count P lo s
      → Paired b.head b.foot (count P lo s)
      → n ≤ count P lo s
      → Good lo s.flow
      → Checked (Kept P lo n) (join P c b s) none
  join-Checked {start = start} c b s h (before, p, j) i q le g =
      rw (h, p)
        (weaken-Checked (join-at start before b.head b.foot c.current_block s q i j g)
          (λ c₁ s₁ (p₁, le₁, g₁). (p₁, omega (arith, le, le₁), g₁)))

  body-Checked :
      (body : Block) (returns_unit : Bool) (start end : ℕ) (s : Gen P.Graph)
      → start < count P lo s
      → end < count P lo s
      → Good lo s.flow
      → Checked
          (Fine P lo (count P lo s))
          (generate_body P body returns_unit start end s)
          (first_error false body)
  unfolding generate_body
  body-Checked body returns_unit start end s i j g =
      only-Checked
        (block-Checked {n = count P lo s} body none begin s (Paired.neither, omega arith, g))
        (λ b s₁ (p₁, le₁, g₁).
          then-Checked (started-at start s₁ (omega (arith, i, le₁)) g₁)
            (λ c s₂ (h, before, le₂, g₂).
              then-Checked
                (join-Checked {n = count P lo s} c b s₂ h before (omega (arith, i, le₁, le₂))
                  (widen-Paired p₁ le₂) (omega (arith, le₁, le₂)) g₂)
                (λ c₁ s₃ k₃. then-Checked (return_unit-Checked returns_unit c₁ s₃ k₃) (λ c₂ s₄ k₄.
                  then-Checked
                    (appended-Checked P lo Node.exit_scope (Checked.runs {a = c₂} {s = s₄} k₄))
                    (λ c₃ s₅ (p₅, le₅, g₅).
                      weaken-Checked (index-Checked P lo c₃ end s₅ p₅ (omega (arith, j, le₅)) g₅)
                        (λ c₄ s₆ (headed, p₆, same, g₆). (omega (arith, le₅, same), g₆)))))))

finished-Checked :
    (P : Petgraph) (lo n start : ℕ) {A : Type 0} {r : Outcome ControlFlowError (A × Gen P.Graph)}
    {e : Option ControlFlowError}
    → Checked (Fine P lo n) r e
    → Checked (λ g flow. Good lo flow) (finished P (and_then r (λ a. pure start))) e
finished-Checked P lo n start Checked.fails = Checked.fails
finished-Checked P lo n start (Checked.runs g) = Checked.runs g.1

-- From data whose counters are ahead of every id in use, `generate` never panics, neither by an
-- `unwrap`, an `expect` or an `unreachable!` of its own, nor in the crate by an edge from or to a
-- number that is not of a node: it returns the error of the first `break` or `continue` of the body
-- that is in no loop of the body, and a graph, with counters that are ahead again, if there is none.
-- The graphs are those of any implementation of the crate's interface, which sets no limit to the
-- number of nodes.
pub generate-Checked :
    (P : Petgraph) (lo : ℕ) (body : Block) (returns_unit : Bool) (flow : ExprFlow.State)
    → Good lo flow
    → Checked
        (λ g after. Good flow.next_fn_id after)
        (generate P body returns_unit flow)
        (first_error false body)
unfolding generate add_node
generate-Checked P lo body returns_unit flow g =
    let one = P.node_count-add_node Node.start P.new in
    let two = P.node_count-add_node Node.end (P.add_node Node.start P.new) in
    finished-Checked P flow.next_fn_id _ _ (
      body-Checked P flow.next_fn_id body returns_unit _ _ _ (omega (arith, one, two))
        (omega (arith, one, two)) (no_fns-Good g))
