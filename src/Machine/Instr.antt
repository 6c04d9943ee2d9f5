-- ===== src/Machine/Instr.antt =====
-- smpli/src/executor.rs, `execute_instruction`: one instruction on the environment of the top
-- frame and on the return register, and what it asks the executor to do next.
pub mod Division
use smpl_mirror.Common.{
  ℕ, String, List, [], ◌∷◌, Option, none, some, Bool, true, false, not, ◌&&◌, ◌||◌, Outcome, ok,
  err, ◌>>=◌, ◌>>◌, unwrapped, ok_or, if◌then◌else◌, zero, suc,
}
use smpl_mirror.Common.Int.{ℤ, ltb_ℤ, leb_ℤ}
use smpl_mirror.ByteCode.{Location, Arg, Instruction, absolute_target, relative_target}
use smpl_mirror.Machine.Value.{
  FnHandle, Value, int, float, bool, array, function, struct, unit, Array, empty, item, Struct, end,
  set_field, from_list, value_eq,
}
use smpl_mirror.Machine.Env.{Env}
use smpl_mirror.Machine.Place
use smpl_mirror.Machine.Place.{fetch, arg_to_value}
use smpl_mirror.Machine.Errors.{
  RuntimeInstructionError, IiReason, InternalError, invalid_instruction, runtime_instruction_error,
}
use smpl_mirror.Machine.Arith.{Target}
use smpl_mirror.Machine.Arith

pub data ExecuteAction : Type 0 where
  increment_ip : ExecuteAction
  set_ip : ℕ → ExecuteAction
  add_ip : ℤ → ExecuteAction
  push_stack : FnHandle → List Value → ExecuteAction
  pop_stack : Value → ExecuteAction

abbrev Result : Type 0 → Type 0
Result A = Outcome InternalError A

-- What an instruction leaves: the action, the environment and the return register.
abbrev pub Executed : Type 0
Executed = ExecuteAction × Env × Option Value

-- The macros `integer_from_arg!`, `float_from_arg!` and `bool_from_arg!`, in two halves.
abbrev as_int : Instruction → Value → Result ℤ
as_int instr (int i) = ok i
as_int instr _ = err (runtime_instruction_error (RuntimeInstructionError.expected_int instr))

abbrev as_float : Instruction → Value → Result ℕ
as_float instr (float f) = ok f
as_float instr _ = err (runtime_instruction_error (RuntimeInstructionError.expected_float instr))

abbrev as_bool : Instruction → Value → Result Bool
as_bool instr (bool b) = ok b
as_bool instr _ = err (runtime_instruction_error (RuntimeInstructionError.expected_bool instr))

unfoldable pub integer_from_arg : Instruction → Env → Arg → Result ℤ
integer_from_arg instr e (Arg.location l) = do v ← unwrapped (fetch e l); as_int instr v
integer_from_arg instr e (Arg.int i) = ok i
integer_from_arg instr e _ = err (invalid_instruction (IiReason.expected_int instr))

unfoldable pub float_from_arg : Instruction → Env → Arg → Result ℕ
float_from_arg instr e (Arg.location l) = do v ← unwrapped (fetch e l); as_float instr v
float_from_arg instr e (Arg.float f) = ok f
float_from_arg instr e _ = err (invalid_instruction (IiReason.expected_float instr))

unfoldable pub bool_from_arg : Instruction → Env → Arg → Result Bool
bool_from_arg instr e (Arg.location l) = do v ← unwrapped (fetch e l); as_bool instr v
bool_from_arg instr e (Arg.bool b) = ok b
bool_from_arg instr e _ = err (invalid_instruction (IiReason.expected_bool instr))

abbrev pub value_of : Env → Arg → Result Value
value_of e a = unwrapped (arg_to_value e a)

-- The arguments of a call, of an array and of a structure, each read in its order.
unfoldable pub args_to_values : Env → List Arg → Result (List Value)
args_to_values e [] = ok []
args_to_values e (a ∷ rest) = do v ← value_of e a; vs ← args_to_values e rest; ok (v ∷ vs)

unfoldable pub init_fields : Env → List (String × Arg) → Struct → Result Struct
init_fields e [] s = ok s
init_fields e ((k, a) ∷ rest) s = do v ← value_of e a; init_fields e rest (set_field k v s)

-- `(0..size).map(|_| cached_value.clone())`
unfoldable pub repeat : ℕ → Value → Array
repeat zero v = empty
repeat (suc n) v = item v (repeat n v)

-- `Executor::store`, after which the next instruction follows.
unfoldable pub store_next : Location → Value → Env → Option Value → Result Executed
store_next l v e reg = do e' ← unwrapped (Place.store e l v); ok (increment_ip, e', reg)

module _ (instr : Instruction) (l : Location) (a b : Arg) (e : Env) (reg : Option Value) where
  unfoldable pub int_op : (ℤ → ℤ → Result ℤ) → Result Executed
  unfolding store_next integer_from_arg
  int_op op = do
    lhs ← integer_from_arg instr e a
    rhs ← integer_from_arg instr e b
    v ← op lhs rhs
    store_next l (int v) e reg

  unfoldable pub float_op : (ℕ → ℕ → ℕ) → Result Executed
  unfolding store_next float_from_arg
  float_op op = do
    lhs ← float_from_arg instr e a
    rhs ← float_from_arg instr e b
    store_next l (float (op lhs rhs)) e reg

  unfoldable pub comp_int_op : (ℤ → ℤ → Bool) → Result Executed
  unfolding store_next integer_from_arg
  comp_int_op op = do
    lhs ← integer_from_arg instr e a
    rhs ← integer_from_arg instr e b
    store_next l (bool (op lhs rhs)) e reg

  unfoldable pub comp_float_op : (ℕ → ℕ → Bool) → Result Executed
  unfolding store_next float_from_arg
  comp_float_op op = do
    lhs ← float_from_arg instr e a
    rhs ← float_from_arg instr e b
    store_next l (bool (op lhs rhs)) e reg

  unfoldable pub bool_op : (Bool → Bool → Bool) → Result Executed
  unfolding store_next bool_from_arg
  bool_op op = do
    lhs ← bool_from_arg instr e a
    rhs ← bool_from_arg instr e b
    store_next l (bool (op lhs rhs)) e reg

  unfoldable pub value_op : (Value → Value → Bool) → Result Executed
  unfolding store_next
  value_op op = do lhs ← value_of e a; rhs ← value_of e b; store_next l (bool (op lhs rhs)) e reg

unfoldable pub negated : Target → Instruction → Value → Result Value
negated t instr (int i) = do j ← Arith.neg t i; ok (int j)
negated t instr (float f) = ok (float (t.float.neg f))
negated t instr _ = err (runtime_instruction_error (RuntimeInstructionError.expected_int instr))

-- The conditional jumps: `action` if the condition has the wanted value.
unfoldable pub jump_if :
    Instruction → Bool → Arg → ExecuteAction → Env → Option Value → Result Executed
unfolding bool_from_arg
jump_if instr wanted a action e reg = do
  condition ← bool_from_arg instr e a
  ok (if (if wanted then condition else not condition) then action else increment_ip, e, reg)

abbrev call_value : Instruction → Value → List Value → Result ExecuteAction
call_value instr (function h) vs = ok (push_stack h vs)
call_value instr _ vs =
    err (runtime_instruction_error (RuntimeInstructionError.expected_function instr))

-- The callee is looked at before the arguments are read.
abbrev is_function : Instruction → Value → Result (Unit {0})
is_function instr (function h) = ok tt
is_function instr _ =
    err (runtime_instruction_error (RuntimeInstructionError.expected_function instr))

abbrev return_value : Env → Option Arg → Result Value
return_value e none = ok unit
return_value e (some a) = value_of e a

unfoldable pub execute_instruction : Target → Instruction → ℕ → Env → Option Value → Result Executed
unfolding int_op float_op comp_int_op comp_float_op bool_op value_op negated jump_if store_next
    args_to_values init_fields repeat
execute_instruction t (Instruction.store l a) ip e reg = do v ← value_of e a; store_next l v e reg
execute_instruction t (Instruction.store_structure l fields) ip e reg = do
  s ← init_fields e fields end
  store_next l (struct s) e reg
execute_instruction t (Instruction.store_array1 l args) ip e reg = do
  vs ← args_to_values e args
  store_next l (array (from_list vs)) e reg
execute_instruction t (Instruction.store_array2 l a size) ip e reg = do
  v ← value_of e a
  store_next l (array (repeat size v)) e reg
execute_instruction t (Instruction.add_i l a b) ip e reg =
    int_op (Instruction.add_i l a b) l a b e reg (Arith.add t)
execute_instruction t (Instruction.sub_i l a b) ip e reg =
    int_op (Instruction.sub_i l a b) l a b e reg (Arith.sub t)
execute_instruction t (Instruction.mul_i l a b) ip e reg =
    int_op (Instruction.mul_i l a b) l a b e reg (Arith.mul t)
execute_instruction t (Instruction.div_i l a b) ip e reg =
    int_op (Instruction.div_i l a b) l a b e reg Arith.div
execute_instruction t (Instruction.mod_i l a b) ip e reg =
    int_op (Instruction.mod_i l a b) l a b e reg Arith.modulo
execute_instruction t (Instruction.add_f l a b) ip e reg =
    float_op (Instruction.add_f l a b) l a b e reg t.float.add
execute_instruction t (Instruction.sub_f l a b) ip e reg =
    float_op (Instruction.sub_f l a b) l a b e reg t.float.sub
execute_instruction t (Instruction.mul_f l a b) ip e reg =
    float_op (Instruction.mul_f l a b) l a b e reg t.float.mul
execute_instruction t (Instruction.div_f l a b) ip e reg =
    float_op (Instruction.div_f l a b) l a b e reg t.float.div
execute_instruction t (Instruction.mod_f l a b) ip e reg =
    float_op (Instruction.mod_f l a b) l a b e reg t.float.rem
execute_instruction t (Instruction.and l a b) ip e reg =
    bool_op (Instruction.and l a b) l a b e reg ◌&&◌
execute_instruction t (Instruction.or l a b) ip e reg =
    bool_op (Instruction.or l a b) l a b e reg ◌||◌
execute_instruction t (Instruction.g_eq_i l a b) ip e reg =
    comp_int_op (Instruction.g_eq_i l a b) l a b e reg (λ x y. leb_ℤ y x)
execute_instruction t (Instruction.l_eq_i l a b) ip e reg =
    comp_int_op (Instruction.l_eq_i l a b) l a b e reg (λ x y. leb_ℤ x y)
execute_instruction t (Instruction.ge_i l a b) ip e reg =
    comp_int_op (Instruction.ge_i l a b) l a b e reg (λ x y. ltb_ℤ y x)
execute_instruction t (Instruction.le_i l a b) ip e reg =
    comp_int_op (Instruction.le_i l a b) l a b e reg (λ x y. ltb_ℤ x y)
execute_instruction t (Instruction.g_eq_f l a b) ip e reg =
    comp_float_op (Instruction.g_eq_f l a b) l a b e reg (λ x y. t.float.less_eq y x)
execute_instruction t (Instruction.l_eq_f l a b) ip e reg =
    comp_float_op (Instruction.l_eq_f l a b) l a b e reg t.float.less_eq
execute_instruction t (Instruction.ge_f l a b) ip e reg =
    comp_float_op (Instruction.ge_f l a b) l a b e reg (λ x y. t.float.less y x)
execute_instruction t (Instruction.le_f l a b) ip e reg =
    comp_float_op (Instruction.le_f l a b) l a b e reg t.float.less
execute_instruction t (Instruction.eq l a b) ip e reg =
    value_op (Instruction.eq l a b) l a b e reg (value_eq t.float)
execute_instruction t (Instruction.in_eq l a b) ip e reg =
    value_op (Instruction.in_eq l a b) l a b e reg (λ x y. not (value_eq t.float x y))
execute_instruction t (Instruction.negate l a) ip e reg = do
  v ← value_of e a
  w ← negated t (Instruction.negate l a) v
  store_next l w e reg
execute_instruction t (Instruction.invert l a) ip e reg = do
  b ← bool_from_arg (Instruction.invert l a) e a
  store_next l (bool (not b)) e reg
execute_instruction t (Instruction.fn_call l args) ip e reg = do
  f ← unwrapped (fetch e l)
  is_function (Instruction.fn_call l args) f
  vs ← args_to_values e args
  action ← call_value (Instruction.fn_call l args) f vs
  ok (action, e, reg)
execute_instruction t (Instruction.return a) ip e reg = do
  v ← return_value e a
  ok (pop_stack v, e, reg)
execute_instruction t (Instruction.take_return l) ip e reg = do
  v ← ok_or reg (runtime_instruction_error (RuntimeInstructionError.no_return_value ip))
  store_next l v e none
execute_instruction t (Instruction.jump j) ip e reg = ok (set_ip (absolute_target j), e, reg)
execute_instruction t (Instruction.jump_condition j a) ip e reg =
    jump_if (Instruction.jump_condition j a) true a (set_ip (absolute_target j)) e reg
execute_instruction t (Instruction.jump_negate_condition j a) ip e reg =
    jump_if (Instruction.jump_negate_condition j a) false a (set_ip (absolute_target j)) e reg
execute_instruction t (Instruction.rel_jump j) ip e reg = ok (add_ip (relative_target j), e, reg)
execute_instruction t (Instruction.rel_jump_condition j a) ip e reg =
    jump_if (Instruction.rel_jump_condition j a) true a (add_ip (relative_target j)) e reg
execute_instruction t (Instruction.rel_jump_negate_condition j a) ip e reg =
    jump_if (Instruction.rel_jump_negate_condition j a) false a (add_ip (relative_target j)) e reg
