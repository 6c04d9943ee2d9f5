-- ===== src/ByteGen/FirstPass/Whole.antt =====
-- The three passes together, on the traversal of structured code.
use smpl_mirror.Common.{ℕ, zero, suc, ◌+◌, ◌≤◌, ◌≡◌, List, [], ◌∷◌, inl, some, ok, arith}
use smpl_mirror.ByteGen.ByteExpr.{TypingContext}
use smpl_mirror.ByteGen.Partial.{PartialInstruction}
use smpl_mirror.ByteGen.SecondPass.{SecondPass}
use smpl_mirror.ByteGen.Compile.{ByteCodeFunction, compile_passes}
use smpl_mirror.ByteGen.Correct.Total.{Structured, compile_total}
use smpl_mirror.ByteGen.FirstPass.Tree.{Tree, first_pass, Builds, Ready}
use smpl_mirror.ByteGen.FirstPass.Plain.{
  StaysIn, value_of-IsPlain, simple_code-IsPlain, IsPlain-Structured, IsPlain-Structured_all,
}
use smpl_mirror.ByteGen.FirstPass.Met.{
  Adds, Avoids, Adds-refl, Adds-widen, Adds-trans, Adds-cons, Avoids-narrow, Avoids-cons,
  Avoids-Adds, Avoids-Adds_before,
}
use smpl_mirror.ByteGen.FirstPass.Builds.{Ready-≤, first_pass-Builds}

-- No statement of the tree is `continue` or `break`.
unfoldable pub NoJumps : Tree → Type 0
NoJumps Tree.done = Unit
NoJumps (Tree.simple s rest) = StaysIn s × NoJumps rest
NoJumps (Tree.loop id condition body rest) = NoJumps body × NoJumps rest
NoJumps (Tree.branch id condition t f rest) = NoJumps t × NoJumps f × NoJumps rest

-- How many loops and branches the tree has.
unfoldable pub marks : Tree → ℕ
marks Tree.done = 0
marks (Tree.simple s rest) = marks rest
marks (Tree.loop id condition body rest) = suc (marks body + marks rest)
marks (Tree.branch id condition t f rest) = suc (marks t + marks f + marks rest)

record Nested (sp : SecondPass) (n lo hi : ℕ) (begun ended : List ℕ)
    (code : List PartialInstruction) : Type 0 where
  begun' : List ℕ
  ended' : List ℕ
  structured : Structured sp n begun ended code begun' ended'
  adds_begun : Adds lo hi begun begun'
  adds_ended : Adds lo hi ended ended'

module _ (ty : TypingContext) (sp : SecondPass) where
  tree-Nested :
      {lo hi : ℕ} {tree : Tree} {code : List PartialInstruction} (n : ℕ) {b e : List ℕ}
      → Ready ty lo hi tree
      → Builds ty sp tree code
      → NoJumps tree
      → marks tree ≤ n
      → Avoids lo hi b
      → Avoids lo hi e
      → Nested sp n lo hi b e code
  unfolding NoJumps marks
  tree-Nested n {b} {e} (Ready.done le) Builds.done stays few avoids_b avoids_e = record {
    begun' = b;
    ended' = e;
    structured = Structured.done;
    adds_begun = Adds-refl;
    adds_ended = Adds-refl;
  }
  tree-Nested n (Ready.simple {s = s} p' r') (Builds.simple p r) (stays, stays') few avoids_b
        avoids_e =
      let rest = tree-Nested n r' r stays' few avoids_b avoids_e in
      record {
        begun' = rest.begun';
        ended' = rest.ended';
        structured = IsPlain-Structured (simple_code-IsPlain ty s p stays) rest.structured;
        adds_begun = rest.adds_begun;
        adds_ended = rest.adds_ended;
      }
  tree-Nested zero (Ready.loop le p' b' r') (Builds.loop p h b r) stays few avoids_b avoids_e =
      absurd (omega arith)
  tree-Nested (suc n) {b = begun} {e = ended}
        (Ready.loop {lo = lo} {mid = mid} {hi = hi} {id = id} {condition = condition} le p' b' r')
        (Builds.loop p h b r) (stays, stays') few avoids_b avoids_e =
      let le_body = Ready-≤ ty b' in
      let le_rest = Ready-≤ ty r' in
      let body : Nested sp n (suc id) mid (id ∷ begun) ended _ =
        tree-Nested n b' b stays (omega arith)
          (Avoids-cons (omega arith)
            (Avoids-narrow {lo = lo} {hi = hi} (omega arith) le_rest avoids_b))
          (Avoids-narrow {lo = lo} {hi = hi} (omega arith) le_rest avoids_e) in
      let rest : Nested sp (suc n) mid hi body.begun' (id ∷ body.ended') _ =
        tree-Nested (suc n) r' r stays' (omega arith)
          (Avoids-Adds body.adds_begun (
            Avoids-cons (omega arith)
              (Avoids-narrow {lo = lo} {hi = hi} (omega arith) (omega arith) avoids_b)))
          (Avoids-cons (omega arith) (
            Avoids-Adds body.adds_ended
              (Avoids-narrow {lo = lo} {hi = hi} (omega arith) (omega arith) avoids_e))) in
      record {
        begun' = rest.begun';
        ended' = rest.ended';
        structured =
            Structured.loop h (avoids_b.avoids id le (omega arith))
              (IsPlain-Structured_all (value_of-IsPlain ty condition p)) body.structured
              (body.adds_ended.adds id (inl (omega arith)) (avoids_e.avoids id le (omega arith)))
              rest.structured;
        adds_begun = Adds-trans (Adds-cons le (omega arith)) (
            Adds-trans (Adds-widen (omega arith) le_rest body.adds_begun)
              (Adds-widen (omega arith) (omega arith) rest.adds_begun));
        adds_ended = Adds-trans (Adds-widen (omega arith) le_rest body.adds_ended) (
            Adds-trans (Adds-cons le (omega arith))
              (Adds-widen (omega arith) (omega arith) rest.adds_ended));
      }
  tree-Nested zero (Ready.branch p' t' le f' r') (Builds.branch p h t f r) stays few avoids_b
        avoids_e =
      absurd (omega arith)
  tree-Nested (suc n) {b = begun} {e = ended}
        (Ready.branch {lo = lo} {mid = mid} {mid' = mid'} {hi = hi} {id = id}
          {condition = condition} p' t' le f' r')
        (Builds.branch p h t f r) (stays_t, stays_f, stays') few avoids_b avoids_e =
      let le_true = Ready-≤ ty t' in
      let le_false = Ready-≤ ty f' in
      let le_rest = Ready-≤ ty r' in
      let no : Nested sp n (suc id) mid' begun ended _ =
        tree-Nested n f' f stays_f (omega arith)
          (Avoids-narrow {lo = lo} {hi = hi} (omega arith) le_rest avoids_b)
          (Avoids-narrow {lo = lo} {hi = hi} (omega arith) le_rest avoids_e) in
      let yes : Nested sp n lo mid no.begun' no.ended' _ =
        tree-Nested n t' t stays_t (omega arith)
          (Avoids-narrow {lo = lo} {hi = suc id} (omega arith) (omega arith) (
            Avoids-Adds_before no.adds_begun
              (Avoids-narrow {lo = lo} {hi = hi} (omega arith) (omega arith) avoids_b)))
          (Avoids-narrow {lo = lo} {hi = suc id} (omega arith) (omega arith) (
            Avoids-Adds_before no.adds_ended
              (Avoids-narrow {lo = lo} {hi = hi} (omega arith) (omega arith) avoids_e))) in
      let both_begun : Adds lo mid' begun yes.begun' =
        Adds-trans (Adds-widen (omega arith) (omega arith) no.adds_begun)
          (Adds-widen (omega arith) (omega arith) yes.adds_begun) in
      let both_ended : Adds lo mid' ended yes.ended' =
        Adds-trans (Adds-widen (omega arith) (omega arith) no.adds_ended)
          (Adds-widen (omega arith) (omega arith) yes.adds_ended) in
      let rest : Nested sp (suc n) mid' hi yes.begun' yes.ended' _ =
        tree-Nested (suc n) r' r stays' (omega arith)
          (Avoids-Adds both_begun
            (Avoids-narrow {lo = lo} {hi = hi} (omega arith) (omega arith) avoids_b))
          (Avoids-Adds both_ended
            (Avoids-narrow {lo = lo} {hi = hi} (omega arith) (omega arith) avoids_e)) in
      record {
        begun' = rest.begun';
        ended' = rest.ended';
        structured =
            Structured.branch h (IsPlain-Structured_all (value_of-IsPlain ty condition p))
              no.structured yes.structured rest.structured;
        adds_begun =
            Adds-trans (Adds-widen (omega arith) le_rest both_begun)
              (Adds-widen (omega arith) (omega arith) rest.adds_begun);
        adds_ended =
            Adds-trans (Adds-widen (omega arith) le_rest both_ended)
              (Adds-widen (omega arith) (omega arith) rest.adds_ended);
      }

-- Every tree without `continue` and `break`, whose expressions translate and whose loops and
-- branches have ids of their own, is compiled: the first pass succeeds on its traversal, and the
-- other two passes on what it leaves, with fuel from the number of loops and branches on.
pub compile_tree :
    (ty : TypingContext) (fuel : ℕ) {lo hi : ℕ} {tree : Tree}
    → Ready ty lo hi tree
    → NoJumps tree
    → marks tree ≤ fuel
    → (sp : SecondPass) × (f : ByteCodeFunction) × (first_pass ty tree ≡ some sp)
      × (compile_passes fuel sp ≡ ok f)
compile_tree ty fuel {tree = tree} ready stays enough =
    let (sp, passed, builds) = first_pass-Builds ty ready in
    let nested =
      tree-Nested ty sp (marks tree) {b = []} {e = []} ready builds stays (omega arith)
        (record { avoids = λ j le lt. tt }) (record { avoids = λ j le lt. tt }) in
    let (f, compiled) = compile_total sp (marks tree) fuel enough nested.structured in
    (sp, f, passed, compiled)
