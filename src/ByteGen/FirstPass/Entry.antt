-- ===== src/ByteGen/FirstPass/Entry.antt =====
-- From the control flow graph to the executor (smpl/src/code_gen/byte_gen/mod.rs): the entry point
-- of the generator, on the graphs of structured code.
use mathlib.Core.Path.{subst}
use smpl_mirror.Common.{
  ℕ, suc, ◌+◌, ◌-◌, ◌^◌, ◌<◌, ◌≤◌, ◌≡◌, refl, sym, ◌∙◌, List, [], ◌∷◌, none, some, Outcome, ok,
  ◌>>=◌, arith, unwrapped, length, lookup_id,
}
use smpl_mirror.Common.Options.{>>=-eq-some}
use smpl_mirror.ControlFlow.{Cfg, Node, Edge}
use smpl_mirror.Traversal.{Walked, nowhere, walk_until, visit_with, visit_node, traverse}
use smpl_mirror.Machine.Value.{FnHandle, Value}
use smpl_mirror.Machine.Arith.{Target}
use smpl_mirror.Machine.Executor.{ByteCodeStack, byte_code_stack, execute}
use smpl_mirror.ByteGen.ByteExpr.{TypingContext}
use smpl_mirror.ByteGen.SecondPass.{SecondPass, OutOfFuel}
use smpl_mirror.ByteGen.Compile.{ByteCodeFunction, compile_passes}
use smpl_mirror.ByteGen.Meaning.{returned}
use smpl_mirror.ByteGen.Correct.Program.{Program, running, Creates, Calls}
use smpl_mirror.ByteGen.FirstPass.{FirstPass, on_start, on_end, into_second_pass}
use smpl_mirror.ByteGen.FirstPass
use smpl_mirror.ByteGen.FirstPass.Tree.{Tree, perform, first_pass, Ready}
use smpl_mirror.ByteGen.FirstPass.Whole.{NoJumps, marks, compile_tree}
use smpl_mirror.ByteGen.FirstPass.Builds.{first_pass-Builds}
use smpl_mirror.ByteGen.FirstPass.Doing.{Does}
use smpl_mirror.ByteGen.FirstPass.Executing.{execute-Does}
use smpl_mirror.ByteGen.FirstPass.Riding.{rider, Laid, next_lem}
use smpl_mirror.ByteGen.FirstPass.Traversed.{walk-Laid}

-- The fuel is for the depth of loops and branches, in the traversal and in the second pass.
unfoldable pub compile_to_byte_code : ℕ → TypingContext → Cfg → Outcome OutOfFuel ByteCodeFunction
unfolding traverse compile_passes
compile_to_byte_code fuel ty g = do
  p ← traverse g rider fuel (FirstPass.new ty)
  sp ← unwrapped (into_second_pass p)
  compile_passes fuel sp

-- The graph is that of the tree, between its start and its end, with a node for each visit.
pub record Holds (g : Cfg) (tree : Tree) : Type 0 where
  pub first : ℕ
  pub last : ℕ
  pub visits : ℕ
  pub edge : Edge
  pub starts : g.weight g.start_node ≡ some Node.start
  pub leads : g.edges g.start_node ≡ (edge, first) ∷ []
  pub laid : Laid g tree first last visits
  pub ends : g.weight last ≡ some Node.end
  pub room : suc visits < g.node_count

module _ (g : Cfg) (ty : TypingContext) {tree : Tree} (holds : Holds g tree) where
  start_turn :
      (fuel r : ℕ) (p p₁ : FirstPass)
      → on_start p ≡ some p₁
      → walk_until {E = OutOfFuel} g rider
          (nowhere g rider)
          (visit_node g rider (suc fuel))
          (suc r)
          g.start_node
          p
        ≡ walk_until g rider (nowhere g rider) (visit_node g rider (suc fuel)) r holds.first p₁
  unfolding walk_until visit_node visit_with
  start_turn fuel r p p₁ h =
      rw (holds.starts, h, next_lem {E = OutOfFuel} g g.start_node holds.first holds.leads)

  end_turn :
      (fuel r : ℕ) (p p₁ : FirstPass)
      → on_end p ≡ some p₁
      → walk_until {E = OutOfFuel} g rider
          (nowhere g rider)
          (visit_node g rider (suc fuel))
          (suc r)
          holds.last
          p
        ≡ ok (Walked.ended p₁)
  unfolding walk_until visit_node visit_with
  end_turn fuel r p p₁ h = rw (holds.ends, h)

  traverse_turns :
      (fuel : ℕ) (p p₁ p₂ p₃ : FirstPass)
      → marks tree ≤ fuel
      → on_start p ≡ some p₁
      → perform tree p₁ ≡ some p₂
      → on_end p₂ ≡ some p₃
      → traverse {E = OutOfFuel} g rider (suc fuel) p ≡ ok p₃
  unfolding traverse
  traverse_turns fuel p p₁ p₂ p₃ few h h' h'' =
      let r = g.node_count - suc (suc holds.visits) in
      let turns : g.node_count ≡ suc (holds.visits + suc r) = omega (arith, holds.room) in
      let walked : walk_until {E = OutOfFuel} g rider (nowhere g rider)
            (visit_node g rider (suc fuel)) g.node_count g.start_node p
          ≡ ok (Walked.ended p₃) =
        subst
          (λ i.
            walk_until {E = OutOfFuel} g rider (nowhere g rider) (visit_node g rider (suc fuel)) i
              g.start_node p
            ≡ ok (Walked.ended p₃))
          (sym turns)
          (start_turn fuel (holds.visits + suc r) p p₁ h
            ∙ walk-Laid g fuel (nowhere g rider) (suc r) p₁ p₂ holds.laid few (λ n w i. refl) h'
            ∙ end_turn fuel r p₂ p₃ h'') in
      rw walked refl

  -- The generator on the graph of a tree, where the first pass is the passenger of the traversal,
  -- with fuel for more than the loops and branches of the tree, gives what the other two passes
  -- make of the frames that the first pass leaves when it hears the calls of the tree in order, if
  -- those calls succeed.
  pub compile-first_pass :
      (fuel : ℕ) (sp : SecondPass)
      → marks tree ≤ fuel
      → first_pass ty tree ≡ some sp
      → compile_to_byte_code (suc fuel) ty g ≡ compile_passes (suc fuel) sp
  unfolding compile_to_byte_code first_pass
  compile-first_pass fuel sp few h =
      let (p₁, h₁, q₁) = >>=-eq-some (on_start (FirstPass.new ty)) _ h in
      let (p₂, h₂, q₂) = >>=-eq-some (perform tree p₁) _ q₁ in
      let (p₃, h₃, q₃) = >>=-eq-some (on_end p₂) _ q₂ in
      rw (traverse_turns fuel (FirstPass.new ty) p₁ p₂ p₃ few h₁ h₂ h₃, q₃)

module _ (fuel : ℕ) (ty : TypingContext) (g : Cfg) {lo hi : ℕ} {tree : Tree} where
  -- The generator succeeds on the graph of every tree without `continue` and `break`, whose
  -- expressions translate and whose loops and branches have ids of their own, with more fuel than
  -- the tree has loops and branches: neither the traversal nor a pass panics or runs out of turns.
  pub compile_to_byte_code-total :
      Holds g tree
      → Ready ty lo hi tree
      → NoJumps tree
      → marks tree ≤ fuel
      → (f : ByteCodeFunction) × (compile_to_byte_code (suc fuel) ty g ≡ ok f)
  compile_to_byte_code-total holds ready stays few =
      let (sp, f, passed, compiled) = compile_tree ty (suc fuel) ready stays (omega arith) in
      (f, compile-first_pass g ty holds fuel sp few passed ∙ compiled)

  -- If the generator, with more fuel than the tree has loops and branches, compiles the graph of
  -- a tree whose expressions translate and whose loops and branches have ids of their own to a
  -- function of fewer than 2^63 instructions that is known to the program, and the tree, started
  -- in the new frame of a call, returns a value, with its own calls answered by builtins and
  -- compiled functions nested `n` deep, then the executor, started on that call, finishes with
  -- that value after some number of steps.
  pub execute-compile_to_byte_code :
      (t : Target) (p : Program) (n : ℕ) (f : ByteCodeFunction) (h : FnHandle) (args : List Value)
      (fr : ByteCodeStack) (v : Value)
      → Holds g tree
      → Ready ty lo hi tree
      → marks tree ≤ fuel
      → compile_to_byte_code (suc fuel) ty g ≡ ok f
      → lookup_id h.fn_id p.compiled ≡ some f.instructions
      → length f.instructions < 2 ^ 63
      → Creates p h args (byte_code_stack fr)
      → Does t (Calls t p n) ty tree (fr.env, none) (returned v)
      → (steps : ℕ) × (execute steps t (running p (byte_code_stack fr) [] none) ≡ some (ok v))
  execute-compile_to_byte_code t p n f h args fr v holds ready few compiled known small frame does =
      let (sp, passed, builds) = first_pass-Builds ty ready in
      execute-Does t p n (suc fuel) ty sp f h args fr v ready passed
        (sym (compile-first_pass g ty holds fuel sp few passed) ∙ compiled) known small frame does
