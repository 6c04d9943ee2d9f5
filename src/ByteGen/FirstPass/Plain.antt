-- ===== src/ByteGen/FirstPass/Plain.antt =====
-- The code of a simple statement that is no jump (smpl/src/code_gen/byte_gen/first_pass.rs) has no
-- marks.
use smpl_mirror.Common.{ℕ, ◌≡◌, ap, List, [], ◌∷◌, ◌++◌, none, some}
use smpl_mirror.Common.Options.{>>=-eq-some, some_inj}
use smpl_mirror.ByteCode.{Instruction}
use smpl_mirror.ByteGen.ByteExpr.{TypingContext, translate_expr, translate_path}
use smpl_mirror.TypedAst.{Expr, last}
use smpl_mirror.ByteGen.Partial.{PartialInstruction}
use smpl_mirror.ByteGen.SecondPass.{SecondPass}
use smpl_mirror.ByteGen.Correct.Total.{Structured}
use smpl_mirror.ByteGen.FirstPass.{as_instructions, value_of}
use smpl_mirror.ByteGen.FirstPass.Tree.{
  Simple, simple_code, decl, assign, expr_stmt, return_stmt, continue_stmt, break_stmt,
}

abbrev pub StaysIn : Simple → Type 0
StaysIn (continue_stmt id) = ⊥
StaysIn (break_stmt id) = ⊥
StaysIn _ = Unit

pub data IsPlain : List PartialInstruction → Type 0 where
  done : IsPlain []
  plain :
      {i : Instruction} {rest : List PartialInstruction}
      → IsPlain rest
      → IsPlain (PartialInstruction.instruction i ∷ rest)

as_instructions-IsPlain : (is : List Instruction) → IsPlain (as_instructions is)
as_instructions-IsPlain [] = IsPlain.done
as_instructions-IsPlain (i ∷ is) = IsPlain.plain (as_instructions-IsPlain is)

append-IsPlain : {c d : List PartialInstruction} → IsPlain c → IsPlain d → IsPlain (c ++ d)
append-IsPlain IsPlain.done q = q
append-IsPlain (IsPlain.plain p) q = IsPlain.plain (append-IsPlain p q)

pub value_of-IsPlain :
    (ty : TypingContext) (e : Expr) {code : List PartialInstruction} {result : _}
    → value_of ty e ≡ some (code, result)
    → IsPlain code
unfolding value_of
value_of-IsPlain ty e p =
    let (is, q, u) = >>=-eq-some (translate_expr ty e) _ p in
    let (id, v, w) = >>=-eq-some (last e) _ u in
    let same = some_inj w in rw (← ap (λ r. r.0) same) (as_instructions-IsPlain is)

pub simple_code-IsPlain :
    (ty : TypingContext) (s : Simple) {code : List PartialInstruction}
    → simple_code ty s ≡ some code
    → StaysIn s
    → IsPlain code
unfolding simple_code
simple_code-IsPlain ty (decl x e) p stays =
    let ((c, value), q, u) = >>=-eq-some (value_of ty e) _ p in
    rw (← some_inj u) (append-IsPlain (value_of-IsPlain ty e q) (IsPlain.plain IsPlain.done))
simple_code-IsPlain ty (assign path e) p stays =
    let ((c, value), q, u) = >>=-eq-some (value_of ty e) _ p in
    let ((access, location), v, w) = >>=-eq-some (translate_path ty path) _ u in
    rw (← some_inj w) (
      append-IsPlain (value_of-IsPlain ty e q)
        (append-IsPlain (as_instructions-IsPlain access) (IsPlain.plain IsPlain.done)))
simple_code-IsPlain ty (expr_stmt e) p stays =
    let (is, q, u) = >>=-eq-some (translate_expr ty e) _ p in
    rw (← some_inj u) (as_instructions-IsPlain is)
simple_code-IsPlain ty (return_stmt none) p stays = rw (← some_inj p) (IsPlain.plain IsPlain.done)
simple_code-IsPlain ty (return_stmt (some e)) p stays =
    let ((c, value), q, u) = >>=-eq-some (value_of ty e) _ p in
    rw (← some_inj u) (append-IsPlain (value_of-IsPlain ty e q) (IsPlain.plain IsPlain.done))
simple_code-IsPlain ty (continue_stmt id) p stays = absurd stays
simple_code-IsPlain ty (break_stmt id) p stays = absurd stays

pub IsPlain-Structured :
    {sp : SecondPass} {n : ℕ} {b e b' e' : List ℕ} {code rest : List PartialInstruction}
    → IsPlain code
    → Structured sp n b e rest b' e'
    → Structured sp n b e (code ++ rest) b' e'
IsPlain-Structured IsPlain.done r = r
IsPlain-Structured (IsPlain.plain p) r = Structured.plain (IsPlain-Structured p r)

pub IsPlain-Structured_all :
    {sp : SecondPass} {n : ℕ} {b e : List ℕ} {code : List PartialInstruction}
    → IsPlain code
    → Structured sp n b e code b e
IsPlain-Structured_all IsPlain.done = Structured.done
IsPlain-Structured_all (IsPlain.plain p) = Structured.plain (IsPlain-Structured_all p)
