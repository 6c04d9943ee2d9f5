-- ===== src/Machine/Instr/Division.antt =====
-- `DivI` and `ModI` in smpli/src/executor.rs on the same operands.
use smpl_mirror.Common.{ℕ, zero, suc, Option, some, ◌≡◌, ◌≢◌, refl, true, false, Outcome, ok, arith}
use smpl_mirror.Common.Int.{ℤ, pos, negsuc, quot, in_i64, eq_ℤ, ◌+ℤ◌, ◌*ℤ◌}
use smpl_mirror.ByteCode.{Location, Arg, Instruction}
use smpl_mirror.Machine.Value.{Value, int}
use smpl_mirror.Machine.Env.{Env}
use smpl_mirror.Machine.Place.{arg_to_value}
use smpl_mirror.Machine.Arith.{Target, div}
use smpl_mirror.Machine.Arith.Division.{IsRemainder, div-modulo}
use smpl_mirror.Machine.Instr.{integer_from_arg, int_op, store_next, execute_instruction}

not_zero : (n : ℤ) → n ≢ pos 0 → eq_ℤ n (pos 0) ≡ false
not_zero (pos zero) h = absurd (h refl)
not_zero (pos (suc n)) h = ground arith
not_zero (negsuc n) h = ground arith

div-quot :
    {E : Type 0} (m n : ℤ) → n ≢ pos 0 → in_i64 (quot m n) ≡ true → div {E = E} m n ≡ ok (quot m n)
unfolding div
div-quot m n h r = rw (not_zero n h, r) refl

integer_from_arg-int :
    (instr : Instruction) (e : Env) (a : Arg) {m : ℤ}
    → arg_to_value e a ≡ some (int m)
    → integer_from_arg instr e a ≡ ok m
unfolding arg_to_value integer_from_arg
integer_from_arg-int instr e (Arg.location l) h = rw h refl
integer_from_arg-int instr e (Arg.int i) h = cc
integer_from_arg-int instr e (Arg.float f) h = cc
integer_from_arg-int instr e (Arg.bool b) h = cc
integer_from_arg-int instr e (Arg.string s) h = cc

int_op-ok :
    (instr : Instruction) (l : Location) (a b : Arg) (e : Env) (reg : Option Value) {m n q : ℤ}
    (op : ℤ → ℤ → Outcome _ ℤ)
    → arg_to_value e a ≡ some (int m)
    → arg_to_value e b ≡ some (int n)
    → op m n ≡ ok q
    → int_op instr l a b e reg op ≡ store_next l (int q) e reg
unfolding int_op
int_op-ok instr l a b e reg op x y z =
    rw (integer_from_arg-int instr e a x, integer_from_arg-int instr e b y, z) refl

-- If the operands are integers, the second is not 0, and the quotient is an `i64`, what `DivI` does
-- is to store an integer at its target and go on to the next instruction, or to panic where there is
-- no such place, and what `ModI` does is to store another one at its own target in the same way: the
-- first integer times the divisor, plus the second, is the dividend, and the second is smaller than
-- the divisor in magnitude and has the sign of the dividend.
pub div_i-mod_i :
    (t : Target) (l l' : Location) (a b : Arg) (ip : ℕ) (e : Env) (reg : Option Value) {m n : ℤ}
    → arg_to_value e a ≡ some (int m)
    → arg_to_value e b ≡ some (int n)
    → n ≢ pos 0
    → in_i64 (quot m n) ≡ true
    → (q : ℤ) × (r : ℤ) × (execute_instruction t (Instruction.div_i l a b) ip e reg
        ≡ store_next l (int q) e reg)
      × (execute_instruction t (Instruction.mod_i l' a b) ip e reg ≡ store_next l' (int r) e reg)
      × (q *ℤ n +ℤ r ≡ m)
      × IsRemainder m n r
unfolding execute_instruction
div_i-mod_i t l l' a b ip e reg {m = m} {n = n} x y h range =
    let divides = div-quot m n h range in
    let (r, modulo_is, sum, small) = div-modulo m n (quot m n) divides in
    (
      quot m n,
      r,
      int_op-ok _ l a b e reg _ x y divides,
      int_op-ok _ l' a b e reg _ x y modulo_is,
      sum,
      small,
    )
