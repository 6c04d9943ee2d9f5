-- ===== src/ByteGen/Correct/Total.antt =====
-- The second and the third pass together succeed on every tree without `break` and `continue`.
use smpl_mirror.Common.{
  ℕ, zero, suc, ◌≤◌, ◌≡◌, refl, List, [], ◌∷◌, ◌++◌, append_assoc, append-nil, ok, arith,
}
use smpl_mirror.ByteCode.{Arg, Instruction}
use smpl_mirror.ByteGen.Partial.{PartialInstruction, Flat}
use smpl_mirror.ByteGen.SecondPass.{SecondPass, flatten, loop_code, branch_code}
use smpl_mirror.ByteGen.ThirdPass.Total.{NotIn, Marked, pass-Marked}
use smpl_mirror.ByteGen.Meaning.{HasLoop, HasBranch}
use smpl_mirror.ByteGen.Compile.{ByteCodeFunction, compile_passes, new_pre_validated}

-- The items refer to complete frames, nested at most so deep, and no loop is met twice: the loops
-- begun and ended before the items are those of the first two lists, and behind them those of the
-- last two. A branch runs through its false branch first, as the code does.
pub data Structured (sp : SecondPass)
    : ℕ → List ℕ → List ℕ → List PartialInstruction → List ℕ → List ℕ → Type 0 where
  done : {n : ℕ} {b e : List ℕ} → Structured sp n b e [] b e
  plain :
      {n : ℕ} {b e b' e' : List ℕ} {i : Instruction} {rest : List PartialInstruction}
      → Structured sp n b e rest b' e'
      → Structured sp n b e (PartialInstruction.instruction i ∷ rest) b' e'
  loop :
      {n id : ℕ} {b e b₁ e₁ b₂ e₂ b' e' : List ℕ} {result : Arg}
      {condition body rest : List PartialInstruction}
      → HasLoop sp id result condition body
      → NotIn id b
      → Structured sp n (id ∷ b) e condition b₁ e₁
      → Structured sp n b₁ e₁ body b₂ e₂
      → NotIn id e₂
      → Structured sp (suc n) b₂ (id ∷ e₂) rest b' e'
      → Structured sp (suc n) b e (PartialInstruction.loop_mark id ∷ rest) b' e'
  branch :
      {n id : ℕ} {b e b₁ e₁ b₂ e₂ b₃ e₃ b' e' : List ℕ} {result : Arg}
      {condition true_branch false_branch rest : List PartialInstruction}
      → HasBranch sp id result condition true_branch false_branch
      → Structured sp n b e condition b₁ e₁
      → Structured sp n b₁ e₁ false_branch b₂ e₂
      → Structured sp n b₂ e₂ true_branch b₃ e₃
      → Structured sp (suc n) b₃ e₃ rest b' e'
      → Structured sp (suc n) b e (PartialInstruction.branch_mark id ∷ rest) b' e'

abbrev IsMarked : List ℕ → List ℕ → List Flat → Type 0
IsMarked b e code = (is : List Instruction) × Marked b e code is

-- The code may stand in front of any code that goes on from the last two lists.
abbrev Leads : List ℕ → List ℕ → List Flat → List ℕ → List ℕ → Type 0
Leads b e code b' e' = (k : List Flat) → IsMarked b' e' k → IsMarked b e (code ++ k)

Leads-instruction :
    {b e b' e' : List ℕ} (i : Instruction) (code : List Flat)
    → Leads b e code b' e'
    → Leads b e (Flat.instruction i ∷ code) b' e'
Leads-instruction i code l k m = let (is, marked) = l k m in (i ∷ is, Marked.plain marked)

Leads-append :
    {b e b₁ e₁ b' e' : List ℕ} (c d : List Flat)
    → Leads b e c b₁ e₁
    → Leads b₁ e₁ d b' e'
    → Leads b e (c ++ d) b' e'
Leads-append c d l l' k m = rw append_assoc (l (d ++ k) (l' k m))

loop_code-Leads :
    {b e b₁ e₁ b₂ e₂ b' e' : List ℕ} (id : ℕ) (result : Arg) (condition body rest : List Flat)
    → NotIn id b
    → Leads (id ∷ b) e condition b₁ e₁
    → Leads b₁ e₁ body b₂ e₂
    → NotIn id e₂
    → Leads b₂ (id ∷ e₂) rest b' e'
    → Leads b e (loop_code id result condition body ++ rest) b' e'
unfolding loop_code
loop_code-Leads id result condition body rest f c d g r =
    Leads-append (loop_code id result condition body) rest
      (λ k (is, m).
        let (js, marked) =
          Leads-append condition _ c
            (Leads-instruction _ _ (
              Leads-append body _ d (
                Leads-instruction _ (Flat.loop_end id ∷ [])
                  (λ k' (is', m'). (is', Marked.end g m')))))
            k (is, m) in
        (js, Marked.begin f marked))
      r

branch_code-Leads :
    {b e b₁ e₁ b₂ e₂ b₃ e₃ b' e' : List ℕ} (result : Arg)
    (condition true_branch false_branch rest : List Flat)
    → Leads b e condition b₁ e₁
    → Leads b₁ e₁ false_branch b₂ e₂
    → Leads b₂ e₂ true_branch b₃ e₃
    → Leads b₃ e₃ rest b' e'
    → Leads b e (branch_code result condition true_branch false_branch ++ rest) b' e'
unfolding branch_code
branch_code-Leads result condition true_branch false_branch rest c f t r =
    Leads-append (branch_code result condition true_branch false_branch) rest
      (Leads-append condition _ c
        (Leads-instruction _ _ (Leads-append false_branch _ f (Leads-instruction _ true_branch t))))
      r

flatten-Leads :
    (sp : SecondPass) (n fuel : ℕ) {b e b' e' : List ℕ} {instrs : List PartialInstruction}
    → n ≤ fuel
    → Structured sp n b e instrs b' e'
    → (flat : List Flat) × (flatten fuel sp instrs ≡ ok flat) × Leads b e flat b' e'
unfolding flatten
flatten-Leads sp n fuel le Structured.done = ([], refl, λ k m. m)
flatten-Leads sp n fuel le (Structured.plain {i = i} r) =
    let (c, p, after) = flatten-Leads sp n fuel le r in
    (Flat.instruction i ∷ c, rw p, Leads-instruction i c after)
flatten-Leads sp n zero le (Structured.loop h f c d g r) = absurd (omega arith)
flatten-Leads sp n (suc fuel) le (Structured.loop {n = j} {id = id} {result = result} h f c d g r) =
    let (c', p, after_c) = flatten-Leads sp j fuel (omega arith) c in
    let (d', q, after_d) = flatten-Leads sp j fuel (omega arith) d in
    let (r', u, after_r) = flatten-Leads sp (suc j) (suc fuel) le r in
    (
      loop_code id result c' d' ++ r',
      rw (h, p, q, u),
      loop_code-Leads id result c' d' r' f after_c after_d g after_r,
    )
flatten-Leads sp n zero le (Structured.branch h c f t r) = absurd (omega arith)
flatten-Leads sp n (suc fuel) le (Structured.branch {n = j} {result = result} h c f t r) =
    let (c', p, after_c) = flatten-Leads sp j fuel (omega arith) c in
    let (t', q, after_t) = flatten-Leads sp j fuel (omega arith) t in
    let (f', u, after_f) = flatten-Leads sp j fuel (omega arith) f in
    let (r', w, after_r) = flatten-Leads sp (suc j) (suc fuel) le r in
    (
      branch_code result c' t' f' ++ r',
      rw (h, p, q, u, w),
      branch_code-Leads result c' t' f' r' after_c after_f after_t after_r,
    )

-- A tree of complete frames, nested `n` deep at most, with no `break` and no `continue`, in which
-- no loop is met twice, is compiled by any fuel from `n` on: the passes neither panic nor go on
-- for ever.
pub compile_total :
    (sp : SecondPass) (n fuel : ℕ) {b e : List ℕ}
    → n ≤ fuel
    → Structured sp n [] [] sp.main_body b e
    → (f : ByteCodeFunction) × (compile_passes fuel sp ≡ ok f)
unfolding compile_passes
compile_total sp n fuel le s =
    let (flat, p, leads) = flatten-Leads sp n fuel le s in
    let (is, marked) = leads [] ([], Marked.done) in
    let marked' : Marked [] [] flat is = rw (← append-nil flat) marked in
    (new_pre_validated is, rw (p, pass-Marked marked'))
