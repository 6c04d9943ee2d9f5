-- ===== src/ByteGen/FirstPass/Builds.antt =====
-- The first pass on the calls of a whole tree (smpl/src/code_gen/byte_gen/first_pass.rs).
use smpl_mirror.Common.{
  ℕ, [], ◌∷◌, ◌++◌, append_assoc, append-nil, ◌≤◌, ◌≡◌, refl, none, some, arith, lookup_id,
}
use smpl_mirror.ByteGen.ByteExpr.{TypingContext}
use smpl_mirror.ByteGen.SecondPass.{SecondPass}
use smpl_mirror.ByteGen.FirstPass.{State, on_start, on_end, branch_start_path}
use smpl_mirror.ByteGen.FirstPass.Tree.{Tree, perform, first_pass, Builds, Ready}
use smpl_mirror.ByteGen.FirstPass.Ids.{Free, Same-refl, Free-narrow, Free-behind, Free-front}
use smpl_mirror.ByteGen.FirstPass.Built.{Built, Loops, Branches, visit_simple_lem}
use smpl_mirror.ByteGen.FirstPass.Looping.{loop_Built}
use smpl_mirror.ByteGen.FirstPass.Branching.{branch_Built}

pub Ready-≤ : (ty : TypingContext) {lo hi : ℕ} {tree : Tree} → Ready ty lo hi tree → lo ≤ hi
Ready-≤ ty (Ready.done le) = le
Ready-≤ ty (Ready.simple p r) = Ready-≤ ty r
Ready-≤ ty (Ready.loop le p b r) = omega (arith, Ready-≤ ty b, Ready-≤ ty r)
Ready-≤ ty (Ready.branch p t le f r) = omega (arith, Ready-≤ ty t, Ready-≤ ty f, Ready-≤ ty r)

builds_tree :
    (ty : TypingContext) {lo hi : ℕ} {tree : Tree} (loops : Loops) (branches : Branches)
    → Ready ty lo hi tree
    → Free lo hi loops
    → Free lo hi branches
    → Built ty lo hi tree loops branches
unfolding perform branch_start_path
builds_tree ty loops branches (Ready.done le) free_loops free_branches = record {
  loops' = loops;
  branches' = branches;
  code = [];
  runs = λ f fs ss. rw (append-nil f);
  same_loops = Same-refl;
  same_branches = Same-refl;
  builds = λ sp agree agree'. Builds.done;
}
builds_tree ty loops branches (Ready.simple {s = s} {code = code} p r) free_loops free_branches =
    let built = builds_tree ty loops branches r free_loops free_branches in
    record {
      loops' = built.loops';
      branches' = built.branches';
      code = code ++ built.code;
      runs = λ f fs ss.
          rw (
            visit_simple_lem ty s p none f fs ss,
            built.runs (f ++ code) fs ss,
            append_assoc f code,
          );
      same_loops = built.same_loops;
      same_branches = built.same_branches;
      builds = λ sp agree agree'. Builds.simple p (built.builds sp agree agree');
    }
builds_tree ty loops branches
      (Ready.loop {lo = lo} {hi = hi} {id = id} {condition = condition} {body = body} {rest = rest}
        le p b r)
      free_loops free_branches =
    let le_body = Ready-≤ ty b in
    let le_rest = Ready-≤ ty r in
    loop_Built ty lo _ hi id condition body rest loops branches le le_body le_rest p
      (free_loops.free id le (omega arith))
      (λ loops₁ same.
        builds_tree ty loops₁ branches b
          (Free-behind same (Free-narrow (omega arith) le_rest free_loops))
          (Free-narrow (omega arith) le_rest free_branches))
      (λ loops₃ branches₃ same same'.
        builds_tree ty loops₃ branches₃ r
          (Free-behind same (Free-narrow (omega arith) (omega arith) free_loops))
          (Free-behind same' (Free-narrow (omega arith) (omega arith) free_branches)))
builds_tree ty loops branches
      (Ready.branch {lo = lo} {hi = hi} {id = id} {condition = condition} {true_path = true_path}
        {false_path = false_path} {rest = rest} p t le f r)
      free_loops free_branches =
    let le_true = Ready-≤ ty t in
    let le_false = Ready-≤ ty f in
    let le_rest = Ready-≤ ty r in
    branch_Built ty lo _ _ hi id condition true_path false_path rest loops branches le_true le
      le_false le_rest p (free_branches.free id (omega arith) (omega arith))
      (λ branches₁ same.
        builds_tree ty loops branches₁ t (Free-narrow (omega arith) (omega arith) free_loops) (
          Free-narrow {lo = lo} {hi = id} (omega arith) le
            (Free-front same (Free-narrow (omega arith) (omega arith) free_branches))))
      (λ loops₁ branches₃ same same'.
        builds_tree ty loops₁ branches₃ f
          (Free-behind same (Free-narrow (omega arith) (omega arith) free_loops))
          (Free-behind same' (Free-narrow (omega arith) (omega arith) free_branches)))
      (λ loops₂ branches₅ same same'.
        builds_tree ty loops₂ branches₅ r
          (Free-behind same (Free-narrow (omega arith) (omega arith) free_loops))
          (Free-behind same' (Free-narrow (omega arith) (omega arith) free_branches)))

-- The first pass succeeds on the traversal of a tree whose expressions translate and whose loops
-- and branches have ids of their own, and leaves the code of the tree: its main body holds the
-- code of the statements in their order, and each loop and each branch has a frame with the code
-- of its condition, the place of the result, and the code of its body or of its paths.
pub first_pass-Builds :
    (ty : TypingContext) {lo hi : ℕ} {tree : Tree}
    → Ready ty lo hi tree
    → (sp : SecondPass) × (first_pass ty tree ≡ some sp) × Builds ty sp tree sp.main_body
unfolding first_pass on_start on_end lookup_id
first_pass-Builds ty ready =
    let b =
      builds_tree ty [] [] ready (record { free = λ id le lt. refl })
        (record { free = λ id le lt. refl }) in
    (
      record { main_body = b.code; loops = b.loops'; branches = b.branches' },
      rw (b.runs [] [] (State.start ∷ [])),
      b.builds _ (record { agree = λ id le lt. refl }) (record { agree = λ id le lt. refl }),
    )
