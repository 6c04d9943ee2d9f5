-- ===== src/ByteGen/Correct/Layout.antt =====
-- Where flattened code stands in a function's instructions. Markers take no room.
use mathlib.Core.Path.{subst}
use smpl_mirror.Common.{
  ℕ, suc, ◌+◌, ◌≤◌, ◌<◌, ◌≡◌, List, [], ◌∷◌, ◌++◌, some, arith, length, get_elem?, get_elem?-lt,
  length-append, get_elem?-append, append_assoc,
}
use smpl_mirror.Common.Options.{>>=-eq-some, some_inj}
use smpl_mirror.Common.Int.{pos, negsuc}
use smpl_mirror.ByteCode.{Arg, Instruction, rel_jump_target}
use smpl_mirror.ByteGen.Partial.{Flat}
use smpl_mirror.ByteGen.SecondPass.{flattened_len, loop_code, branch_code}
use smpl_mirror.ByteGen.ThirdPass.{LoopIndexes, emit, continue_jump, break_jump}

abbrev pub CodeAt : List Instruction → ℕ → List Flat → Type 0
CodeAt is base [] = Unit
CodeAt is base (Flat.instruction i ∷ code) =
    (get_elem? is base ≡ some i) × CodeAt is (suc base) code
CodeAt is base (Flat.loop_begin id ∷ code) = CodeAt is base code
CodeAt is base (Flat.loop_end id ∷ code) = CodeAt is base code
CodeAt is base (Flat.continue id ∷ code) = (base < length is) × CodeAt is (suc base) code
CodeAt is base (Flat.break id ∷ code) = (base < length is) × CodeAt is (suc base) code

pub len-append : (c d : List Flat) → flattened_len (c ++ d) ≡ flattened_len c + flattened_len d
unfolding flattened_len
len-append [] d = omega arith
len-append (Flat.instruction i ∷ c) d = omega (arith, len-append c d)
len-append (Flat.loop_begin id ∷ c) d = len-append c d
len-append (Flat.loop_end id ∷ c) d = len-append c d
len-append (Flat.continue id ∷ c) d = omega (arith, len-append c d)
len-append (Flat.break id ∷ c) d = omega (arith, len-append c d)

pub CodeAt-append :
    (is : List Instruction) (base : ℕ) (c d : List Flat)
    → CodeAt is base (c ++ d)
    → CodeAt is base c × CodeAt is (base + flattened_len c) d
unfolding flattened_len
CodeAt-append is base [] d h = (tt, rw (let e : base + 0 ≡ base = omega arith in e) h)
CodeAt-append is base (Flat.instruction i ∷ c) d h =
    let (p, q) = CodeAt-append is (suc base) c d h.1 in
    let e : base + suc (flattened_len c) ≡ suc base + flattened_len c = omega arith in
    ((h.0, p), rw e q)
CodeAt-append is base (Flat.loop_begin id ∷ c) d h = CodeAt-append is base c d h
CodeAt-append is base (Flat.loop_end id ∷ c) d h = CodeAt-append is base c d h
CodeAt-append is base (Flat.continue id ∷ c) d h =
    let (p, q) = CodeAt-append is (suc base) c d h.1 in
    let e : base + suc (flattened_len c) ≡ suc base + flattened_len c = omega arith in
    ((h.0, p), rw e q)
CodeAt-append is base (Flat.break id ∷ c) d h =
    let (p, q) = CodeAt-append is (suc base) c d h.1 in
    let e : base + suc (flattened_len c) ≡ suc base + flattened_len c = omega arith in
    ((h.0, p), rw e q)

pub CodeAt-le :
    (is : List Instruction) (base : ℕ) (c : List Flat)
    → CodeAt is base c
    → base ≤ length is
    → base + flattened_len c ≤ length is
unfolding flattened_len
CodeAt-le is base [] h b = omega arith
CodeAt-le is base (Flat.instruction i ∷ c) h b =
    omega (arith, get_elem?-lt is base h.0, CodeAt-le is (suc base) c h.1)
CodeAt-le is base (Flat.loop_begin id ∷ c) h b = CodeAt-le is base c h b
CodeAt-le is base (Flat.loop_end id ∷ c) h b = CodeAt-le is base c h b
CodeAt-le is base (Flat.continue id ∷ c) h b = omega (arith, CodeAt-le is (suc base) c h.1)
CodeAt-le is base (Flat.break id ∷ c) h b = omega (arith, CodeAt-le is (suc base) c h.1)

module _ (pre : List Instruction) (i : Instruction) (tail : List Instruction) where
  behind :
      (code : List Flat)
      → CodeAt ((pre ++ i ∷ []) ++ tail) (length (pre ++ i ∷ [])) code
      → CodeAt (pre ++ i ∷ tail) (suc (length pre)) code
  behind code h =
      let e : length (pre ++ i ∷ []) ≡ suc (length pre) =
        omega (arith, length-append pre (i ∷ [])) in
      subst (λ k. CodeAt (pre ++ i ∷ tail) k code) e
        (subst (λ l. CodeAt l (length (pre ++ i ∷ [])) code) (append_assoc pre (i ∷ []) tail) h)

  lt-behind : length pre < length (pre ++ i ∷ tail)
  lt-behind = omega (arith, length-append pre (i ∷ tail))

-- Whatever the third pass emits behind a prefix is laid out as its input says.
pub emit-CodeAt :
    (m : LoopIndexes) (index : ℕ) (code : List Flat) (pre is : List Instruction)
    → emit m index code ≡ some is
    → CodeAt (pre ++ is) (length pre) code
unfolding emit
emit-CodeAt m index [] pre is h = tt
emit-CodeAt m index (Flat.instruction i ∷ code) pre is h =
    let (tail, p, q) = >>=-eq-some (emit m (index + 1) code) _ h in
    subst (λ l. CodeAt (pre ++ l) (length pre) (Flat.instruction i ∷ code)) (some_inj q)
      (
        get_elem?-append pre i tail,
        behind pre i tail code (emit-CodeAt m (index + 1) code (pre ++ i ∷ []) tail p),
      )
emit-CodeAt m index (Flat.loop_begin id ∷ code) pre is h = emit-CodeAt m (index + 1) code pre is h
emit-CodeAt m index (Flat.loop_end id ∷ code) pre is h = emit-CodeAt m (index + 1) code pre is h
emit-CodeAt m index (Flat.continue id ∷ code) pre is h =
    let (i, _, h') = >>=-eq-some (continue_jump m index id) _ h in
    let (tail, p, q) = >>=-eq-some (emit m (index + 1) code) _ h' in
    subst (λ l. CodeAt (pre ++ l) (length pre) (Flat.continue id ∷ code)) (some_inj q)
      (
        lt-behind pre i tail,
        behind pre i tail code (emit-CodeAt m (index + 1) code (pre ++ i ∷ []) tail p),
      )
emit-CodeAt m index (Flat.break id ∷ code) pre is h =
    let (i, _, h') = >>=-eq-some (break_jump m index id) _ h in
    let (tail, p, q) = >>=-eq-some (emit m (index + 1) code) _ h' in
    subst (λ l. CodeAt (pre ++ l) (length pre) (Flat.break id ∷ code)) (some_inj q)
      (
        lt-behind pre i tail,
        behind pre i tail code (emit-CodeAt m (index + 1) code (pre ++ i ∷ []) tail p),
      )

module _ (is : List Instruction) (base id : ℕ) (result : Arg) where
  -- A loop: its condition, the jump over the body, the body, the jump back.
  pub loop-CodeAt :
      (c b : List Flat)
      → CodeAt is base (loop_code id result c b)
      → CodeAt is base c
        × (get_elem? is (base + flattened_len c)
            ≡ some (
                Instruction.rel_jump_negate_condition
                  (rel_jump_target (pos (flattened_len b + 2)))
                  result))
        × CodeAt is (suc (base + flattened_len c)) b
        × (get_elem? is (suc (base + flattened_len c) + flattened_len b)
            ≡ some (
                Instruction.rel_jump
                  (rel_jump_target (negsuc (flattened_len b + flattened_len c)))))
  unfolding loop_code
  loop-CodeAt c b h =
      let (at_c, skip) = CodeAt-append is base c _ h in
      let (at_b, back) = CodeAt-append is (suc (base + flattened_len c)) b _ skip.1 in
      (at_c, skip.0, at_b, back.0)

  pub len-loop_code :
      (c b : List Flat)
      → flattened_len (loop_code id result c b) ≡ flattened_len c + flattened_len b + 2
  unfolding loop_code flattened_len
  len-loop_code c b = omega (arith, len-append c, len-append b)

  -- A branch: its condition, the jump to the true branch, the false branch, the jump over the
  -- true branch, the true branch.
  pub branch-CodeAt :
      (c t f : List Flat)
      → CodeAt is base (branch_code result c t f)
      → CodeAt is base c
        × (get_elem? is (base + flattened_len c)
            ≡ some (
                Instruction.rel_jump_condition
                  (rel_jump_target (pos (flattened_len f + 2)))
                  result))
        × CodeAt is (suc (base + flattened_len c)) f
        × (get_elem? is (suc (base + flattened_len c) + flattened_len f)
            ≡ some (Instruction.rel_jump (rel_jump_target (pos (flattened_len t + 1)))))
        × CodeAt is (suc (suc (base + flattened_len c) + flattened_len f)) t
  unfolding branch_code
  branch-CodeAt c t f h =
      let (at_c, jump) = CodeAt-append is base c _ h in
      let (at_f, over) = CodeAt-append is (suc (base + flattened_len c)) f _ jump.1 in
      (at_c, jump.0, at_f, over.0, over.1)

  pub len-branch_code :
      (c t f : List Flat)
      → flattened_len (branch_code result c t f)
        ≡ flattened_len c + flattened_len t + flattened_len f + 2
  unfolding branch_code flattened_len
  len-branch_code c t f = omega (arith, len-append c, len-append f)
