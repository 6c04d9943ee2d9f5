-- ===== src/ByteGen/Correct/Runs.antt =====
-- The simulation: every run of the tree is a sequence of moves of its code.
use mathlib.Core.Path.{subst}
use smpl_mirror.Common.{
  ℕ, suc, ◌+◌, ◌≤◌, ◌<◌, ◌^◌, ◌≡◌, refl, sym, ap, List, true, false, some, ok, arith, length,
  get_elem?-lt,
}
use smpl_mirror.Machine.Arith.{Target}
use smpl_mirror.Machine.Executor.{ByteCodeStack}
use smpl_mirror.ByteGen.Partial.{PartialInstruction, Flat}
use smpl_mirror.ByteGen.SecondPass.{SecondPass, flatten, flattened_len}
use smpl_mirror.ByteGen.Meaning.{
  State, Ending, finished, returned, CallRelation, Run, Moves, Moves-trans, at, Reaches,
}
use smpl_mirror.ByteGen.Correct.Layout.{CodeAt}
use smpl_mirror.ByteGen.Correct.Parts.{ok_inj, flatten-instruction, loop_parts, branch_parts}
use smpl_mirror.ByteGen.Correct.Jumping.{
  loop-skips, loop-enters, loop-goes_back, branch-takes, branch-falls, branch-jumps_over,
}
use smpl_mirror.ByteGen.Correct.Steps.{frame_step-plain, frame_step-call, frame_step-return}

module _ (t : Target) (Returns : CallRelation) (fr : ByteCodeStack) where
  -- Moves first, then code that answers to the ending.
  Reaches-after :
      {ip ip' : ℕ} {s s' : State} (stop : ℕ) (out : Ending)
      → Moves t Returns (at fr ip s) s.1 (at fr ip' s') s'.1
      → Reaches t Returns fr ip' s' stop out
      → Reaches t Returns fr ip s stop out
  Reaches-after stop (finished s'') m r = Moves-trans m r
  Reaches-after stop (returned v) m (last, reg, last', reg', n, e) =
      (last, reg, last', reg', Moves-trans m n, e)

  -- Flattened code does what the tree means, wherever it stands in a function that fits `i64`
  -- jumps: it ends behind itself in the same state, or returns the same value.
  pub flatten-Reaches :
      (sp : SecondPass) {instrs : List PartialInstruction} {s : State} {out : Ending}
      (fuel base stop : ℕ) (flat : List Flat)
      → length fr.current_fn < 2 ^ 63
      → Run t Returns sp instrs s out
      → flatten fuel sp instrs ≡ ok flat
      → CodeAt fr.current_fn base flat
      → base ≤ length fr.current_fn
      → stop ≡ base + flattened_len flat
      → Reaches t Returns fr base s stop out
  flatten-Reaches sp {s = s} fuel base stop flat small Run.done f c b e =
      let n : stop ≡ base =
        unfold flatten flattened_len in omega (arith, ap flattened_len (ok_inj f)) in
      rw n Moves.here
  flatten-Reaches sp {s = s} {out = out} fuel base stop flat small
        (Run.plain {i = i} {rest = rest} {s' = s'} x r) f c b e =
      let (code, p, q) = flatten-instruction fuel sp i rest f in
      let (g, c') = subst (CodeAt fr.current_fn base) (sym q) c in
      Reaches-after stop out
        (Moves.local (frame_step-plain t fr small base i s s' g x) tt Moves.here)
        (flatten-Reaches sp fuel (suc base) stop code small r p c'
          (get_elem?-lt fr.current_fn base g)
          (unfold flattened_len in omega (arith, ap flattened_len q)))
  flatten-Reaches sp {s = s} {out = out} fuel base stop flat small
        (Run.call {i = i} {rest = rest} {s' = s'} {h = h} {vs = vs} {v = v} x y r) f c b e =
      let (code, p, q) = flatten-instruction fuel sp i rest f in
      let (g, c') = subst (CodeAt fr.current_fn base) (sym q) c in
      Reaches-after {s' = (s'.0, some v)} stop out
        (Moves.call (frame_step-call t fr small base i s s' h vs g x) y Moves.here)
        (flatten-Reaches sp fuel (suc base) stop code small r p c'
          (get_elem?-lt fr.current_fn base g)
          (unfold flattened_len in omega (arith, ap flattened_len q)))
  flatten-Reaches sp {s = s} fuel base stop flat small
        (Run.return {i = i} {rest = rest} {s' = s'} {v = v} x) f c b e =
      let (code, p, q) = flatten-instruction fuel sp i rest f in
      let (g, c') = subst (CodeAt fr.current_fn base) (sym q) c in
      (
        at fr base s,
        s.1,
        at fr base s',
        s'.1,
        Moves.here,
        frame_step-return t fr small base i s s' v g x,
      )
  flatten-Reaches sp {s = s} {out = out} fuel base stop flat small
        (Run.loop_exit {id = id} {result = result} {condition = condition} {body = body}
          {rest = rest} {s₁ = s₁} x k y r)
        f c b e =
      let l = loop_parts fr.current_fn sp fuel base stop id result condition body rest x f c b e in
      Reaches-after stop out (flatten-Reaches sp l.fuel' base _ l.c small k l.flat_c l.at_c b refl)
        (Reaches-after stop out (loop-skips t Returns fr small s₁ l y) (
          flatten-Reaches sp fuel _ stop l.r small r l.flat_r l.at_r (omega (arith, l.fits))
            l.ends))
  flatten-Reaches sp {s = s} {out = out} fuel base stop flat small
        (Run.loop_again {id = id} {result = result} {condition = condition} {body = body}
          {rest = rest} {s₁ = s₁} {s₂ = s₂} x k y m r)
        f c b e =
      let l = loop_parts fr.current_fn sp fuel base stop id result condition body rest x f c b e in
      Reaches-after stop out (flatten-Reaches sp l.fuel' base _ l.c small k l.flat_c l.at_c b refl)
        (Reaches-after stop out (loop-enters t Returns fr small s₁ l y) (
          Reaches-after stop out
            (flatten-Reaches sp l.fuel' _ _ l.b small m l.flat_b l.at_b (omega (arith, l.fits))
              refl)
            (Reaches-after stop out (loop-goes_back t Returns fr small s₂ l)
              (flatten-Reaches sp fuel base stop flat small r f c b e))))
  flatten-Reaches sp {s = s} fuel base stop flat small
        (Run.loop_return {id = id} {result = result} {condition = condition} {body = body}
          {rest = rest} {s₁ = s₁} {v = v} x k y m)
        f c b e =
      let l = loop_parts fr.current_fn sp fuel base stop id result condition body rest x f c b e in
      Reaches-after stop (returned v)
        (flatten-Reaches sp l.fuel' base _ l.c small k l.flat_c l.at_c b refl)
        (Reaches-after stop (returned v) (loop-enters t Returns fr small s₁ l y)
          (flatten-Reaches sp l.fuel' _ _ l.b small m l.flat_b l.at_b (omega (arith, l.fits)) refl))
  flatten-Reaches sp {s = s} {out = out} fuel base stop flat small
        (Run.branch {id = id} {result = result} {condition = condition} {true_branch = true_branch}
          {false_branch = false_branch} {rest = rest} {s₁ = s₁} {s₂ = s₂} true x k y m r)
        f c b e =
      let l =
        branch_parts fr.current_fn sp fuel base stop id result condition true_branch false_branch
          rest x f c b e in
      Reaches-after stop out (flatten-Reaches sp l.fuel' base _ l.c small k l.flat_c l.at_c b refl)
        (Reaches-after stop out (branch-takes t Returns fr small s₁ l y) (
          Reaches-after stop out
            (flatten-Reaches sp l.fuel' _ _ l.t small m l.flat_t l.at_t (omega (arith, l.fits))
              refl)
            (flatten-Reaches sp fuel _ stop l.r small r l.flat_r l.at_r (omega (arith, l.fits))
              l.ends)))
  flatten-Reaches sp {s = s} {out = out} fuel base stop flat small
        (Run.branch {id = id} {result = result} {condition = condition} {true_branch = true_branch}
          {false_branch = false_branch} {rest = rest} {s₁ = s₁} {s₂ = s₂} false x k y m r)
        f c b e =
      let l =
        branch_parts fr.current_fn sp fuel base stop id result condition true_branch false_branch
          rest x f c b e in
      Reaches-after stop out (flatten-Reaches sp l.fuel' base _ l.c small k l.flat_c l.at_c b refl)
        (Reaches-after stop out (branch-falls t Returns fr small s₁ l y) (
          Reaches-after stop out
            (flatten-Reaches sp l.fuel' _ _ l.f small m l.flat_f l.at_f (omega (arith, l.fits))
              refl)
            (Reaches-after stop out (branch-jumps_over t Returns fr small s₂ l) (
              flatten-Reaches sp fuel _ stop l.r small r l.flat_r l.at_r (omega (arith, l.fits))
                l.ends))))
  flatten-Reaches sp {s = s} fuel base stop flat small
        (Run.branch_return {id = id} {result = result} {condition = condition}
          {true_branch = true_branch} {false_branch = false_branch} {rest = rest} {s₁ = s₁} {v = v}
          true x k y m)
        f c b e =
      let l =
        branch_parts fr.current_fn sp fuel base stop id result condition true_branch false_branch
          rest x f c b e in
      Reaches-after stop (returned v)
        (flatten-Reaches sp l.fuel' base _ l.c small k l.flat_c l.at_c b refl)
        (Reaches-after stop (returned v) (branch-takes t Returns fr small s₁ l y)
          (flatten-Reaches sp l.fuel' _ _ l.t small m l.flat_t l.at_t (omega (arith, l.fits)) refl))
  flatten-Reaches sp {s = s} fuel base stop flat small
        (Run.branch_return {id = id} {result = result} {condition = condition}
          {true_branch = true_branch} {false_branch = false_branch} {rest = rest} {s₁ = s₁} {v = v}
          false x k y m)
        f c b e =
      let l =
        branch_parts fr.current_fn sp fuel base stop id result condition true_branch false_branch
          rest x f c b e in
      Reaches-after stop (returned v)
        (flatten-Reaches sp l.fuel' base _ l.c small k l.flat_c l.at_c b refl)
        (Reaches-after stop (returned v) (branch-falls t Returns fr small s₁ l y)
          (flatten-Reaches sp l.fuel' _ _ l.f small m l.flat_f l.at_f (omega (arith, l.fits)) refl))
