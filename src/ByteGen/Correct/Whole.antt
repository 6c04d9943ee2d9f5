-- ===== src/ByteGen/Correct/Whole.antt =====
-- The passes together: a compiled function does what its tree means.
use mathlib.Core.Path.{subst}
use smpl_mirror.Common.{
  ℕ, ◌+◌, ◌<◌, ◌^◌, ◌≡◌, sym, ap, ◌∙◌, List, [], ◌∷◌, Option, none, some, Outcome, ok, unwrapped,
  >>=-eq-ok, arith, length,
}
use smpl_mirror.Common.Options.{>>=-eq-some, some_inj}
use smpl_mirror.ByteCode.{Instruction}
use smpl_mirror.Machine.Arith.{Target}
use smpl_mirror.Machine.Executor.{ByteCodeStack}
use smpl_mirror.ByteGen.Partial.{Flat}
use smpl_mirror.ByteGen.SecondPass.{SecondPass, flatten, flattened_len}
use smpl_mirror.ByteGen.ThirdPass.{
  LoopIndexes, emit, gather_loop_indexes, continue_jump, break_jump,
}
use smpl_mirror.ByteGen.ThirdPass
use smpl_mirror.ByteGen.Compile.{ByteCodeFunction, compile_passes}
use smpl_mirror.ByteGen.Meaning.{State, Ending, CallRelation, Run, Reaches}
use smpl_mirror.ByteGen.Correct.Layout.{CodeAt, emit-CodeAt}
use smpl_mirror.ByteGen.Correct.Parts.{ok_inj}
use smpl_mirror.ByteGen.Correct.Runs.{flatten-Reaches}

-- Each flattened item but the markers becomes one instruction.
flattened_len-emit :
    (m : LoopIndexes) (index : ℕ) (code : List Flat) {is : List Instruction}
    → emit m index code ≡ some is
    → length is ≡ flattened_len code
unfolding emit flattened_len
flattened_len-emit m index [] h = omega (arith, ap length (some_inj (sym h)))
flattened_len-emit m index (Flat.instruction i ∷ code) h =
    let (tail, p, q) = >>=-eq-some (emit m (index + 1) code) _ h in
    omega (arith, ap length (some_inj q), flattened_len-emit m (index + 1) code p)
flattened_len-emit m index (Flat.loop_begin id ∷ code) h = flattened_len-emit m (index + 1) code h
flattened_len-emit m index (Flat.loop_end id ∷ code) h = flattened_len-emit m (index + 1) code h
flattened_len-emit m index (Flat.continue id ∷ code) h =
    let (i, _, h') = >>=-eq-some (continue_jump m index id) _ h in
    let (tail, p, q) = >>=-eq-some (emit m (index + 1) code) _ h' in
    omega (arith, ap length (some_inj q), flattened_len-emit m (index + 1) code p)
flattened_len-emit m index (Flat.break id ∷ code) h =
    let (i, _, h') = >>=-eq-some (break_jump m index id) _ h in
    let (tail, p, q) = >>=-eq-some (emit m (index + 1) code) _ h' in
    omega (arith, ap length (some_inj q), flattened_len-emit m (index + 1) code p)

unwrapped_inj :
    {E A : Type 0} (o : Option A) {a : A} → ◌≡◌ {A = Outcome E A} (unwrapped o) (ok a) → o ≡ some a
unwrapped_inj none h = cc
unwrapped_inj (some a) h = cc

-- What a successful compilation went through.
pub compile_passes-parts :
    (fuel : ℕ) (sp : SecondPass) (f : ByteCodeFunction)
    → compile_passes fuel sp ≡ ok f
    → (flat : List Flat) × (m : LoopIndexes) × (flatten fuel sp sp.main_body ≡ ok flat)
      × (emit m 0 flat ≡ some f.instructions)
unfolding compile_passes
compile_passes-parts fuel sp f h =
    let (flat, p, h₁) = >>=-eq-ok (flatten fuel sp sp.main_body) _ h in
    let (is, q, h₂) = >>=-eq-ok (unwrapped (ThirdPass.pass flat)) _ h₁ in
    let (m, _, u) =
      >>=-eq-some (gather_loop_indexes 0 flat _) _ (unwrapped_inj (ThirdPass.pass flat) q) in
    (flat, m, p, u ∙ ap some (ap (λ (g : ByteCodeFunction). g.instructions) (ok_inj h₂)))

-- A compiled function of fewer than 2^63 instructions does what its tree of loops and branches
-- means: if the tree, started in a state, falls through to another state, then the frame moves
-- from its first instruction to just behind its last one with that state; if the tree returns a
-- value, the frame comes to an instruction that pops it with that value. Calls that the tree
-- makes are answered by any relation `Returns`, the same on both sides.
pub compile-Reaches :
    (t : Target) (Returns : CallRelation) (fuel : ℕ) (sp : SecondPass) (f : ByteCodeFunction)
    (fr : ByteCodeStack) (s : State) (out : Ending)
    → compile_passes fuel sp ≡ ok f
    → fr.current_fn ≡ f.instructions
    → length f.instructions < 2 ^ 63
    → Run t Returns sp sp.main_body s out
    → Reaches t Returns fr 0 s (length f.instructions) out
compile-Reaches t Returns fuel sp f fr s out h same small run =
    let (flat, m, p, q) = compile_passes-parts fuel sp f h in
    flatten-Reaches t Returns fr sp fuel 0 (length f.instructions) flat
      (omega (arith, ap length same)) run p
      (subst (λ is. CodeAt is 0 flat) (sym same) (emit-CodeAt m 0 flat [] f.instructions q))
      (omega arith) (omega (arith, flattened_len-emit m 0 flat q))
