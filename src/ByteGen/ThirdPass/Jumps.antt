-- ===== src/ByteGen/ThirdPass/Jumps.antt =====
-- What becomes of `break` and `continue` in the third pass.
use smpl_mirror.Common.{
  ℕ, suc, ◌+◌, ◌<◌, ◌≡◌, refl, sym, ap, List, [], ◌∷◌, ◌++◌, none, some, Option-cases, inl, inr,
  arith, length, get_elem?, ◌∙◌, append_assoc, length-append, get_elem?-append, lookup_id,
  lookup_id-insert_id,
}
use smpl_mirror.Common.Options.{>>=-eq-some, some_inj}
use smpl_mirror.Common.Int.{pos}
use smpl_mirror.ByteCode.{Instruction, rel_jump_target}
use smpl_mirror.ByteGen.Partial.{Flat}
use smpl_mirror.ByteGen.SecondPass.{flattened_len}
use smpl_mirror.ByteGen.ThirdPass.{
  Indexes, LoopIndexes, insert_new, gather_loop_indexes, emit, continue_jump, break_jump, pass,
}

lookup-insert_new_self :
    (id index : ℕ) (m : Indexes) {m' : Indexes}
    → insert_new id index m ≡ some m'
    → lookup_id id m' ≡ some index
unfolding insert_new
lookup-insert_new_self id index m h = ground (arith, lookup_id-insert_id id id index m)

lookup-insert_new :
    (id j index k : ℕ) (m : Indexes) {m' : Indexes}
    → insert_new j index m ≡ some m'
    → lookup_id id m ≡ some k
    → lookup_id id m' ≡ some k
unfolding insert_new
lookup-insert_new id j index k m h e = ground (arith, lookup_id-insert_id j id index m)

-- A begin index that is known stays.
gather-keeps :
    (index : ℕ) (code : List Flat) (m : LoopIndexes) (id k : ℕ) {m' : LoopIndexes}
    → gather_loop_indexes index code m ≡ some m'
    → lookup_id id m.loop_begin_indexes ≡ some k
    → lookup_id id m'.loop_begin_indexes ≡ some k
unfolding gather_loop_indexes
gather-keeps index [] m id k h e = rw (← some_inj h) e
gather-keeps index (Flat.instruction i ∷ code) m id k h e = gather-keeps (index + 1) code m id k h e
gather-keeps index (Flat.continue i ∷ code) m id k h e = gather-keeps (index + 1) code m id k h e
gather-keeps index (Flat.break i ∷ code) m id k h e = gather-keeps (index + 1) code m id k h e
gather-keeps index (Flat.loop_begin j ∷ code) m id k h e =
    let (begins, p, q) = >>=-eq-some (insert_new j index m.loop_begin_indexes) _ h in
    gather-keeps (index + 1) code (record m { loop_begin_indexes = begins }) id k q
      (lookup-insert_new id j index k m.loop_begin_indexes p e)
gather-keeps index (Flat.loop_end j ∷ code) m id k h e =
    let (ends, p, q) = >>=-eq-some (insert_new j index m.loop_end_indexes) _ h in
    gather-keeps (index + 1) code (record m { loop_end_indexes = ends }) id k q e

-- The begin index that is gathered is where the marker stands.
gather-begin :
    (index k : ℕ) (pre rest : List Flat) (m : LoopIndexes) (id : ℕ) {m' : LoopIndexes}
    → gather_loop_indexes index (pre ++ Flat.loop_begin id ∷ rest) m ≡ some m'
    → k ≡ index + length pre
    → lookup_id id m'.loop_begin_indexes ≡ some k
unfolding gather_loop_indexes
gather-begin index k [] rest m id h e =
    let (begins, p, q) = >>=-eq-some (insert_new id index m.loop_begin_indexes) _ h in
    let same : k ≡ index = omega arith in
    rw same (
      gather-keeps (index + 1) rest (record m { loop_begin_indexes = begins }) id index q
        (lookup-insert_new_self id index m.loop_begin_indexes p))
gather-begin index k (Flat.instruction i ∷ pre) rest m id h e =
    gather-begin (index + 1) k pre rest m id h (omega arith)
gather-begin index k (Flat.continue i ∷ pre) rest m id h e =
    gather-begin (index + 1) k pre rest m id h (omega arith)
gather-begin index k (Flat.break i ∷ pre) rest m id h e =
    gather-begin (index + 1) k pre rest m id h (omega arith)
gather-begin index k (Flat.loop_begin j ∷ pre) rest m id h e =
    let (begins, p, q) = >>=-eq-some (insert_new j index m.loop_begin_indexes) _ h in
    gather-begin (index + 1) k pre rest (record m { loop_begin_indexes = begins }) id q
      (omega arith)
gather-begin index k (Flat.loop_end j ∷ pre) rest m id h e =
    let (ends, p, q) = >>=-eq-some (insert_new j index m.loop_end_indexes) _ h in
    gather-begin (index + 1) k pre rest (record m { loop_end_indexes = ends }) id q (omega arith)

-- What is emitted for a list in two parts: that of the first part, then that of the second.
abbrev Split : LoopIndexes → ℕ → List Flat → List Flat → List Instruction → Type 0
Split m k c d is =
    (front : List Instruction) × (back : List Instruction) × (is ≡ front ++ back)
    × (length front ≡ flattened_len c)
    × (emit m k d ≡ some back)

Split-cons :
    (m : LoopIndexes) (k : ℕ) (c d : List Flat) (f : Flat) (i : Instruction)
    {is tail : List Instruction}
    → flattened_len (f ∷ c) ≡ suc (flattened_len c)
    → i ∷ tail ≡ is
    → Split m k c d tail
    → Split m k (f ∷ c) d is
Split-cons m k c d f i one q (front, back, e, n, h) =
    (i ∷ front, back, sym q ∙ ap (λ l. i ∷ l) e, ap suc n ∙ sym one, h)

emit-Split :
    (m : LoopIndexes) (index k : ℕ) (c d : List Flat) (is : List Instruction)
    → emit m index (c ++ d) ≡ some is
    → k ≡ index + length c
    → Split m k c d is
unfolding emit flattened_len
emit-Split m index k [] d is h e =
    let same : k ≡ index = omega arith in ([], is, refl, refl, rw same h)
emit-Split m index k (Flat.instruction i ∷ c) d is h e =
    let (tail, p, q) = >>=-eq-some (emit m (index + 1) (c ++ d)) _ h in
    Split-cons m k c d (Flat.instruction i) i refl (some_inj q)
      (emit-Split m (index + 1) k c d tail p (omega arith))
emit-Split m index k (Flat.continue id ∷ c) d is h e =
    let (i, _, h') = >>=-eq-some (continue_jump m index id) _ h in
    let (tail, p, q) = >>=-eq-some (emit m (index + 1) (c ++ d)) _ h' in
    Split-cons m k c d (Flat.continue id) i refl (some_inj q)
      (emit-Split m (index + 1) k c d tail p (omega arith))
emit-Split m index k (Flat.break id ∷ c) d is h e =
    let (i, _, h') = >>=-eq-some (break_jump m index id) _ h in
    let (tail, p, q) = >>=-eq-some (emit m (index + 1) (c ++ d)) _ h' in
    Split-cons m k c d (Flat.break id) i refl (some_inj q)
      (emit-Split m (index + 1) k c d tail p (omega arith))
emit-Split m index k (Flat.loop_begin id ∷ c) d is h e =
    emit-Split m (index + 1) k c d is h (omega arith)
emit-Split m index k (Flat.loop_end id ∷ c) d is h e =
    emit-Split m (index + 1) k c d is h (omega arith)

-- A successful pass over a loop with an item `f` in it, up to the item: the indexes, and what is
-- emitted before and from the item on.
abbrev UpTo : ℕ → List Flat → List Flat → Flat → List Flat → List Instruction → Type 0
UpTo id pre mid f post is =
    (m : LoopIndexes) × (front : List Instruction) × (back : List Instruction) × (lookup_id id
        m.loop_begin_indexes
      ≡ some (length pre))
    × (is ≡ front ++ back)
    × (length front ≡ flattened_len pre + flattened_len mid)
    × (emit m (length pre + 1 + length mid) (f ∷ post) ≡ some back)

pass-UpTo :
    (id : ℕ) (pre mid : List Flat) (f : Flat) (post : List Flat) (is : List Instruction)
    → pass (pre ++ Flat.loop_begin id ∷ (mid ++ f ∷ post)) ≡ some is
    → UpTo id pre mid f post is
unfolding pass
pass-UpTo id pre mid f post is h =
    let code = pre ++ Flat.loop_begin id ∷ (mid ++ f ∷ post) in
    let (m, g, e) = >>=-eq-some (gather_loop_indexes 0 code _) _ h in
    let (a, b, p, n, u) =
      emit-Split m 0 (length pre) pre (Flat.loop_begin id ∷ (mid ++ f ∷ post)) is e (omega arith) in
    let (a', b', p', n', u') =
      emit-Split m (length pre + 1) (length pre + 1 + length mid) mid (f ∷ post) b
        (unfold emit in u) refl in
    (
      m,
      a ++ a',
      b',
      gather-begin 0 (length pre) pre (mid ++ f ∷ post) _ id g (omega arith),
      p ∙ ap (λ l. a ++ l) p' ∙ sym (append_assoc a a' b'),
      omega (arith, length-append a a'),
      u',
    )

emit-break :
    (m : LoopIndexes) (k id b : ℕ) (post : List Flat)
    → lookup_id id m.loop_begin_indexes ≡ some b
    → b < k
    → emit m k (Flat.break id ∷ post) ≡ none
unfolding emit break_jump
emit-break m k id b post e h = ground arith

emit-continue :
    (m : LoopIndexes) (id b n : ℕ) (post : List Flat) {back : List Instruction}
    → lookup_id id m.loop_begin_indexes ≡ some b
    → emit m (b + 1 + n) (Flat.continue id ∷ post) ≡ some back
    → (tail : List Instruction) × (back
        ≡ Instruction.rel_jump (rel_jump_target (pos (suc n))) ∷ tail)
unfolding emit continue_jump
emit-continue m id b n post {back} e h =
    let (i, p, h') = >>=-eq-some (continue_jump m (b + 1 + n) id) _ h in
    let (tail, q, u) = >>=-eq-some (emit m (b + 1 + n + 1) post) _ h' in (tail, ground arith)

module _ (id : ℕ) (pre mid post : List Flat) where
  -- The third pass panics on every `break` that stands in a loop, behind the loop's begin marker,
  -- whatever else the function holds.
  pub pass-break : pass (pre ++ Flat.loop_begin id ∷ (mid ++ Flat.break id ∷ post)) ≡ none
  pass-break =
      elim (Option-cases (pass (pre ++ Flat.loop_begin id ∷ (mid ++ Flat.break id ∷ post)))) [
        | inl e ↦ e
        | inr (is, e) ↦
            let (m, _, back, known, _, _, u) = pass-UpTo id pre mid (Flat.break id) post is e in
            let stuck : emit m (length pre + 1 + length mid) (Flat.break id ∷ post) ≡ none =
              emit-break m _ id (length pre) post known (omega arith) in
            cc
      ]

  -- Where it succeeds, the third pass compiles a `continue` in a loop to a jump forwards, over as many instructions
  -- as there are items between the loop's begin marker and the `continue`, and one more. So the
  -- jump never leads back to the start of the loop.
  pub pass-continue :
      (is : List Instruction)
      → pass (pre ++ Flat.loop_begin id ∷ (mid ++ Flat.continue id ∷ post)) ≡ some is
      → get_elem? is (flattened_len pre + flattened_len mid)
        ≡ some (Instruction.rel_jump (rel_jump_target (pos (suc (length mid)))))
  pass-continue is e =
      let (m, front, back, known, split, n, u) =
        pass-UpTo id pre mid (Flat.continue id) post is e in
      let (tail, p) = emit-continue m id (length pre) (length mid) post known u in
      rw (split, p, ← n) (get_elem?-append front _ tail)
