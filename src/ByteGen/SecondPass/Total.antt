-- ===== src/ByteGen/SecondPass/Total.antt =====
-- Frames that are nested, as those of a function are, are flattened with fuel for their depth.
use smpl_mirror.Common.{
  ℕ, zero, suc, ◌≤◌, ◌≡◌, refl, List, [], ◌∷◌, ◌++◌, some, ok, arith, lookup_id,
}
use smpl_mirror.ByteCode.{Arg, Instruction}
use smpl_mirror.ByteGen.Partial.{PartialInstruction, Flat}
use smpl_mirror.ByteGen.SecondPass.{SecondPass, flatten, loop_code, branch_code}

-- The items refer to complete frames, nested at most so deep.
pub data Nests (sp : SecondPass) : ℕ → List PartialInstruction → Type 0 where
  done : {n : ℕ} → Nests sp n []
  plain :
      {n : ℕ} {i : Instruction} {rest : List PartialInstruction}
      → Nests sp n rest
      → Nests sp n (PartialInstruction.instruction i ∷ rest)
  continues :
      {n id : ℕ} {rest : List PartialInstruction}
      → Nests sp n rest
      → Nests sp n (PartialInstruction.continue id ∷ rest)
  breaks :
      {n id : ℕ} {rest : List PartialInstruction}
      → Nests sp n rest
      → Nests sp n (PartialInstruction.break id ∷ rest)
  loop :
      {n id : ℕ} {result : Arg} {condition body rest : List PartialInstruction}
      → lookup_id id sp.loops
        ≡ some
            (record { result_location = some result; condition = some condition; body = some body })
      → Nests sp n condition
      → Nests sp n body
      → Nests sp (suc n) rest
      → Nests sp (suc n) (PartialInstruction.loop_mark id ∷ rest)
  branch :
      {n id : ℕ} {result : Arg} {condition true_branch false_branch rest : List PartialInstruction}
      → lookup_id id sp.branches
        ≡ some (record {
          result_location = some result;
          condition = some condition;
          true_branch = some true_branch;
          false_branch = some false_branch;
        })
      → Nests sp n condition
      → Nests sp n true_branch
      → Nests sp n false_branch
      → Nests sp (suc n) rest
      → Nests sp (suc n) (PartialInstruction.branch_mark id ∷ rest)

-- Items that refer to complete frames, nested `n` deep at most, are flattened by any fuel from `n`
-- on: the second pass neither panics nor goes on for ever.
pub flatten_total :
    (sp : SecondPass) (n fuel : ℕ) {instrs : List PartialInstruction}
    → n ≤ fuel
    → Nests sp n instrs
    → (flat : List Flat) × (flatten fuel sp instrs ≡ ok flat)
unfolding flatten
flatten_total sp n fuel le Nests.done = ([], refl)
flatten_total sp n fuel le (Nests.plain {i = i} r) =
    let (c, p) = flatten_total sp n fuel le r in (Flat.instruction i ∷ c, rw p)
flatten_total sp n fuel le (Nests.continues {id = id} r) =
    let (c, p) = flatten_total sp n fuel le r in (Flat.continue id ∷ c, rw p)
flatten_total sp n fuel le (Nests.breaks {id = id} r) =
    let (c, p) = flatten_total sp n fuel le r in (Flat.break id ∷ c, rw p)
flatten_total sp n zero le (Nests.loop e c b r) = absurd (omega arith)
flatten_total sp n (suc fuel) le (Nests.loop {n = k} {id = id} {result = result} e c b r) =
    let (c', p) = flatten_total sp k fuel (omega arith) c in
    let (b', q) = flatten_total sp k fuel (omega arith) b in
    let (r', u) = flatten_total sp (suc k) (suc fuel) le r in
    (loop_code id result c' b' ++ r', rw (e, p, q, u))
flatten_total sp n zero le (Nests.branch e c t f r) = absurd (omega arith)
flatten_total sp n (suc fuel) le (Nests.branch {n = k} {result = result} e c t f r) =
    let (c', p) = flatten_total sp k fuel (omega arith) c in
    let (t', q) = flatten_total sp k fuel (omega arith) t in
    let (f', u) = flatten_total sp k fuel (omega arith) f in
    let (r', w) = flatten_total sp (suc k) (suc fuel) le r in
    (branch_code result c' t' f' ++ r', rw (e, p, q, u, w))
