-- ===== src/ByteGen/Correct/Parts.antt =====
-- What `flatten` has put together, taken apart again.
use mathlib.Core.Path.{subst}
use smpl_mirror.Common.{
  ℕ, zero, suc, ◌+◌, ◌≤◌, ◌≡◌, sym, ap, List, ◌∷◌, ◌++◌, some, Outcome, ok, >>=-eq-ok, arith,
  length, get_elem?,
}
use smpl_mirror.Common.Int.{pos, negsuc}
use smpl_mirror.ByteCode.{Arg, Instruction, rel_jump_target}
use smpl_mirror.ByteGen.Partial.{PartialInstruction, Flat}
use smpl_mirror.ByteGen.SecondPass.{SecondPass, flatten, flattened_len, loop_code, branch_code}
use smpl_mirror.ByteGen.Meaning.{HasLoop, HasBranch}
use smpl_mirror.ByteGen.Correct.Layout.{
  CodeAt, CodeAt-append, CodeAt-le, loop-CodeAt, len-loop_code, branch-CodeAt, len-branch_code,
  len-append,
}

pub ok_inj : {E A : Type 0} {a b : A} → ◌≡◌ {A = Outcome E A} (ok a) (ok b) → a ≡ b
ok_inj h = cc

module _ (fuel : ℕ) (sp : SecondPass) where
  pub flatten-instruction :
      (i : Instruction) (rest : List PartialInstruction) {flat : List Flat}
      → flatten fuel sp (PartialInstruction.instruction i ∷ rest) ≡ ok flat
      → (r : List Flat) × (flatten fuel sp rest ≡ ok r) × (Flat.instruction i ∷ r ≡ flat)
  unfolding flatten
  flatten-instruction i rest h =
      let (r, p, q) = >>=-eq-ok (flatten fuel sp rest) _ h in (r, p, ok_inj q)

pub flatten-loop :
    (fuel : ℕ) (sp : SecondPass) (id : ℕ) (result : Arg)
    (condition body rest : List PartialInstruction) {flat : List Flat}
    → HasLoop sp id result condition body
    → flatten fuel sp (PartialInstruction.loop_mark id ∷ rest) ≡ ok flat
    → (fuel' : ℕ) × (c : List Flat) × (b : List Flat) × (r : List Flat) × (flatten fuel' sp
          condition
        ≡ ok c)
      × (flatten fuel' sp body ≡ ok b)
      × (flatten fuel sp rest ≡ ok r)
      × (loop_code id result c b ++ r ≡ flat)
unfolding flatten
flatten-loop zero sp id result condition body rest e h = cc
flatten-loop (suc fuel) sp id result condition body rest e h =
    let (c, p, h₁) = >>=-eq-ok (flatten fuel sp condition) _ (rw e at h) in
    let (b, q, h₂) = >>=-eq-ok (flatten fuel sp body) _ h₁ in
    let (r, u, h₃) = >>=-eq-ok (flatten (suc fuel) sp rest) _ h₂ in
    (fuel, c, b, r, p, q, u, ok_inj h₃)

pub flatten-branch :
    (fuel : ℕ) (sp : SecondPass) (id : ℕ) (result : Arg)
    (condition true_branch false_branch rest : List PartialInstruction) {flat : List Flat}
    → HasBranch sp id result condition true_branch false_branch
    → flatten fuel sp (PartialInstruction.branch_mark id ∷ rest) ≡ ok flat
    → (fuel' : ℕ) × (c : List Flat) × (t : List Flat) × (f : List Flat) × (r : List Flat) × (flatten
          fuel' sp condition
        ≡ ok c)
      × (flatten fuel' sp true_branch ≡ ok t)
      × (flatten fuel' sp false_branch ≡ ok f)
      × (flatten fuel sp rest ≡ ok r)
      × (branch_code result c t f ++ r ≡ flat)
unfolding flatten
flatten-branch zero sp id result condition true_branch false_branch rest e h = cc
flatten-branch (suc fuel) sp id result condition true_branch false_branch rest e h =
    let (c, p, h₁) = >>=-eq-ok (flatten fuel sp condition) _ (rw e at h) in
    let (t, q, h₂) = >>=-eq-ok (flatten fuel sp true_branch) _ h₁ in
    let (f, u, h₃) = >>=-eq-ok (flatten fuel sp false_branch) _ h₂ in
    let (r, w, h₄) = >>=-eq-ok (flatten (suc fuel) sp rest) _ h₃ in
    (fuel, c, t, f, r, p, q, u, w, ok_inj h₄)

-- A flattened loop in a function: the code of its parts and where they stand.
pub record LoopParts (is : List Instruction) (sp : SecondPass) (fuel base stop : ℕ) (result : Arg)
    (condition body rest : List PartialInstruction) : Type 0 where
  pub fuel' : ℕ
  pub c : List Flat
  pub b : List Flat
  pub r : List Flat
  pub flat_c : flatten fuel' sp condition ≡ ok c
  pub flat_b : flatten fuel' sp body ≡ ok b
  pub flat_r : flatten fuel sp rest ≡ ok r
  pub at_c : CodeAt is base c
  pub skip :
      get_elem? is (base + flattened_len c)
      ≡ some (
          Instruction.rel_jump_negate_condition
            (rel_jump_target (pos (flattened_len b + 2)))
            result)
  pub at_b : CodeAt is (suc (base + flattened_len c)) b
  pub back :
      get_elem? is (suc (base + flattened_len c) + flattened_len b)
      ≡ some (Instruction.rel_jump (rel_jump_target (negsuc (flattened_len b + flattened_len c))))
  pub at_r : CodeAt is (base + flattened_len c + (flattened_len b + 2)) r
  pub fits : base + flattened_len c + (flattened_len b + 2) + flattened_len r ≤ length is
  pub ends : stop ≡ base + flattened_len c + (flattened_len b + 2) + flattened_len r

pub loop_parts :
    (is : List Instruction) (sp : SecondPass) (fuel base stop id : ℕ) (result : Arg)
    (condition body rest : List PartialInstruction) {flat : List Flat}
    → HasLoop sp id result condition body
    → flatten fuel sp (PartialInstruction.loop_mark id ∷ rest) ≡ ok flat
    → CodeAt is base flat
    → base ≤ length is
    → stop ≡ base + flattened_len flat
    → LoopParts is sp fuel base stop result condition body rest
loop_parts is sp fuel base stop id result condition body rest {flat} x f h le e =
    let (fuel', c, b, r, p, q, u, w) = flatten-loop fuel sp id result condition body rest x f in
    let (at_l, at_r) =
      CodeAt-append is base (loop_code id result c b) r (subst (CodeAt is base) (sym w) h) in
    let (at_c, skip, at_b, back) = loop-CodeAt is base id result c b at_l in
    let next : base + flattened_len (loop_code id result c b)
        ≡ base + flattened_len c + (flattened_len b + 2) =
      omega (arith, len-loop_code is base id result c b) in
    let ends : stop ≡ base + flattened_len c + (flattened_len b + 2) + flattened_len r =
      omega (arith, ap flattened_len w, len-append (loop_code id result c b) r) in
    record {
      fuel' = fuel';
      c = c;
      b = b;
      r = r;
      flat_c = p;
      flat_b = q;
      flat_r = u;
      at_c = at_c;
      skip = skip;
      at_b = at_b;
      back = back;
      at_r = subst (λ k. CodeAt is k r) next at_r;
      fits = omega (arith, CodeAt-le is base flat h le);
      ends = ends;
    }

-- A flattened branch in a function.
pub record BranchParts (is : List Instruction) (sp : SecondPass) (fuel base stop : ℕ) (result : Arg)
    (condition true_branch false_branch rest : List PartialInstruction) : Type 0 where
  pub fuel' : ℕ
  pub c : List Flat
  pub t : List Flat
  pub f : List Flat
  pub r : List Flat
  pub flat_c : flatten fuel' sp condition ≡ ok c
  pub flat_t : flatten fuel' sp true_branch ≡ ok t
  pub flat_f : flatten fuel' sp false_branch ≡ ok f
  pub flat_r : flatten fuel sp rest ≡ ok r
  pub at_c : CodeAt is base c
  pub choose :
      get_elem? is (base + flattened_len c)
      ≡ some (Instruction.rel_jump_condition (rel_jump_target (pos (flattened_len f + 2))) result)
  pub at_f : CodeAt is (suc (base + flattened_len c)) f
  pub over :
      get_elem? is (suc (base + flattened_len c) + flattened_len f)
      ≡ some (Instruction.rel_jump (rel_jump_target (pos (flattened_len t + 1))))
  pub at_t : CodeAt is (base + flattened_len c + (flattened_len f + 2)) t
  pub at_r : CodeAt is (base + flattened_len c + (flattened_len f + 2) + flattened_len t) r
  pub fits :
      base + flattened_len c + (flattened_len f + 2) + flattened_len t + flattened_len r ≤ length is
  pub ends :
      stop ≡ base + flattened_len c + (flattened_len f + 2) + flattened_len t + flattened_len r

pub branch_parts :
    (is : List Instruction) (sp : SecondPass) (fuel base stop id : ℕ) (result : Arg)
    (condition true_branch false_branch rest : List PartialInstruction) {flat : List Flat}
    → HasBranch sp id result condition true_branch false_branch
    → flatten fuel sp (PartialInstruction.branch_mark id ∷ rest) ≡ ok flat
    → CodeAt is base flat
    → base ≤ length is
    → stop ≡ base + flattened_len flat
    → BranchParts is sp fuel base stop result condition true_branch false_branch rest
branch_parts is sp fuel base stop id result condition true_branch false_branch rest {flat} x y h le
      e =
    let (fuel', c, t, f, r, p, q, u, v, w) =
      flatten-branch fuel sp id result condition true_branch false_branch rest x y in
    let (at_l, at_r) =
      CodeAt-append is base (branch_code result c t f) r (subst (CodeAt is base) (sym w) h) in
    let (at_c, choose, at_f, over, at_t) = branch-CodeAt is base id result c t f at_l in
    let inner : suc (suc (base + flattened_len c) + flattened_len f)
        ≡ base + flattened_len c + (flattened_len f + 2) =
      omega arith in
    let next : base + flattened_len (branch_code result c t f)
        ≡ base + flattened_len c + (flattened_len f + 2) + flattened_len t =
      omega (arith, len-branch_code is base id result c t f) in
    let ends : stop
        ≡ base + flattened_len c + (flattened_len f + 2) + flattened_len t + flattened_len r =
      omega (arith, ap flattened_len w, len-append (branch_code result c t f) r) in
    record {
      fuel' = fuel';
      c = c;
      t = t;
      f = f;
      r = r;
      flat_c = p;
      flat_t = q;
      flat_f = u;
      flat_r = v;
      at_c = at_c;
      choose = choose;
      at_f = at_f;
      over = over;
      at_t = subst (λ k. CodeAt is k t) inner at_t;
      at_r = subst (λ k. CodeAt is k r) next at_r;
      fits = omega (arith, CodeAt-le is base flat h le);
      ends = ends;
    }
