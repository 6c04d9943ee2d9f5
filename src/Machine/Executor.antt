-- ===== src/Machine/Executor.antt =====
-- smpli/src/executor.rs, the executor: its frames, `new`, `create_stack_info`, `step`, `execute`.
-- `compiled` and `builtins` are shared by every frame of the source (`Arc`s of one map each) and
-- are kept here once, in the executor. A builtin is awaited until it answers.
pub mod Invariant
pub mod Pointer
use smpl_mirror.Common.{
  ℕ, String, List, [], ◌∷◌, Option, none, some, Bool, true, false, ◌&&◌, ◌==◌, ltb, Outcome, ok,
  err, panic, ◌>>=◌, ◌>>◌, unwrapped, ok_or, map_err, if◌then◌else◌, zero, suc, ◌+◌, ◌-◌, ◌^◌,
  length, get_elem?, lookup_id,
}
use smpl_mirror.Common.Int.{pos, negsuc}
use smpl_mirror.ByteCode.{Instruction}
use smpl_mirror.Names.{to_fn_id}
use smpl_mirror.Machine.Value.{FnHandle, Value, function, unit}
use smpl_mirror.Machine.Env.{Env, fork, map_value}
use smpl_mirror.Machine.Env
use smpl_mirror.Machine.Errors.{
  exact, ip_underflow, ip_overflow, InternalError, invalid_arg_count,
  instruction_pointer_out_of_bounds, runtime_instruction_error, Error, internal,
}
use smpl_mirror.Machine.Arith.{Target}
use smpl_mirror.Machine.Instr.{
  ExecuteAction, increment_ip, set_ip, add_ip, push_stack, pop_stack, execute_instruction,
}

abbrev pub BuiltinFn : Type 0
BuiltinFn = List Value → Outcome Error Value

-- smpl/src/analysis/metadata/mod.rs: what the executor asks of a program.
pub record Metadata : Type 0 where
  pub builtin : List ℕ
  pub fn_param_ids : List (ℕ × List String)

unfoldable pub contains : ℕ → List ℕ → Bool
contains k [] = false
contains k (j ∷ js) = if j == k then true else contains k js

abbrev pub is_builtin : Metadata → ℕ → Bool
is_builtin m id = contains id m.builtin

pub record ByteCodeStack : Type 0 where
  pub handle : FnHandle
  pub current_fn : List Instruction
  pub env : Env
  pub instruction_pointer : ℕ

pub record BuiltinStack : Type 0 where
  pub handle : FnHandle
  pub current_fn : BuiltinFn
  pub args : List Value

pub data StackInfo : Type 0 where
  byte_code_stack : ByteCodeStack → StackInfo
  builtin_stack : BuiltinStack → StackInfo

pub record Executor : Type 0 where
  pub metadata : Metadata
  pub top : StackInfo
  -- the last frame pushed stands first
  pub stack : List StackInfo
  pub compiled : List (ℕ × List Instruction)
  pub builtins : List (ℕ × BuiltinFn)
  pub return_register : Option Value
  pub module_env : Env
  pub finished : Bool

-- `zip` of the arguments with the parameters, each mapped in turn.
unfoldable pub bind_args : List Value → List String → Env → Env
bind_args [] ps e = e
bind_args (v ∷ vs) [] e = e
bind_args (v ∷ vs) (p ∷ ps) e = bind_args vs ps (map_value p v e).0

module _ (m : Metadata) (compiled : List (ℕ × List Instruction)) (builtins : List (ℕ × BuiltinFn))
    (module_env : Env) where
  -- `BuiltinStack::new`
  unfoldable pub new_builtin_stack : FnHandle → List Value → Outcome InternalError StackInfo
  new_builtin_stack h args = do
    f ← unwrapped (lookup_id h.fn_id builtins)
    ok (builtin_stack (record { handle = h; current_fn = f; args = args }))

  -- `ByteCodeStack::new`
  unfoldable pub new_byte_code_stack : FnHandle → Outcome InternalError ByteCodeStack
  new_byte_code_stack h = do
    f ← unwrapped (lookup_id h.fn_id compiled)
    ok (record { handle = h; current_fn = f; env = fork module_env; instruction_pointer = 0 })

  unfoldable pub create_stack_info : FnHandle → List Value → Outcome InternalError StackInfo
  unfolding new_builtin_stack new_byte_code_stack
  create_stack_info h args = if is_builtin m h.fn_id then new_builtin_stack h args else do
    params ← unwrapped (lookup_id h.fn_id m.fn_param_ids)
    if length params == length args
        then ok tt
        else err (invalid_arg_count (length args) (exact (length params)))
    frame ← new_byte_code_stack h
    ok (byte_code_stack (record frame { env = bind_args args params frame.env }))

-- The instruction pointer after an instruction: a `u64` that must not wrap.
unfoldable pub next_ip : Target → ExecuteAction → ℕ → Outcome InternalError ℕ
next_ip t increment_ip ip =
    if ltb (ip + 1) (2 ^ 64)
    then ok (ip + 1)
    else err (runtime_instruction_error (ip_overflow ip (pos 1)))
next_ip t (push_stack h vs) ip =
    if ltb (ip + 1) (2 ^ 64)
    then ok (ip + 1)
    else err (runtime_instruction_error (ip_overflow ip (pos 1)))
next_ip t (set_ip target) ip = ok target
next_ip t (add_ip (pos n)) ip =
    if ltb (ip + n) (2 ^ 64)
    then ok (ip + n)
    else err (runtime_instruction_error (ip_overflow ip (pos n)))
next_ip t (add_ip (negsuc n)) ip =
    -- `-to_add` overflows at `i64::MIN`, whose wrapped negation is 2^63 as a `u64`
    if (suc n == 2 ^ 63) && t.overflow_checks
    then panic
    else if ltb ip (suc n)
    then err (runtime_instruction_error (ip_underflow ip (negsuc n)))
    else ok (ip - suc n)
next_ip t (pop_stack v) ip = ok ip

-- The part of `step` that is done in the top frame: the action, the frame and the register after.
unfoldable pub frame_step :
    Target
    → ByteCodeStack
    → Option Value
    → Outcome InternalError (ExecuteAction × ByteCodeStack × Option Value)
unfolding next_ip
frame_step t fr reg = do
  instr ←
      ok_or (get_elem? fr.current_fn fr.instruction_pointer)
        (instruction_pointer_out_of_bounds fr.instruction_pointer (length fr.current_fn))
  (action, env, reg') ← execute_instruction t instr fr.instruction_pointer fr.env reg
  ip ← next_ip t action fr.instruction_pointer
  ok (action, record fr { env = env; instruction_pointer = ip }, reg')

unfoldable pub top_step :
    Target → StackInfo → Option Value → Outcome Error (ExecuteAction × StackInfo × Option Value)
unfolding frame_step
top_step t (builtin_stack b) reg = do
  result ← b.current_fn b.args
  ok (pop_stack result, builtin_stack (record b { args = [] }), reg)
top_step t (byte_code_stack fr) reg = do
  (action, fr', reg') ← map_err internal (frame_step t fr reg)
  ok (action, byte_code_stack fr', reg')

-- `ExecuteAction::PopStack`: back to the caller, or the end of the first function.
abbrev pub popped : Executor → List StackInfo → Value → Executor
popped x [] v = record x { finished = true; return_register = some v }
popped x (caller ∷ callers) v = record x { top = caller; stack = callers; return_register = some v }

unfoldable pub act : Executor → ExecuteAction → Outcome Error Executor
unfolding create_stack_info
act x (push_stack h args) = do
  callee ← map_err internal (create_stack_info x.metadata x.compiled x.builtins x.module_env h args)
  ok (record x { top = callee; stack = x.top ∷ x.stack })
act x (pop_stack v) = ok (popped x x.stack v)
act x _ = ok x

unfoldable pub step : Target → Executor → Outcome Error Executor
unfolding top_step act
step t x = do
  (action, top, reg) ← top_step t x.top x.return_register
  act (record x { top = top; return_register = reg }) action

abbrev pub unwrap_or : Option Value → Value → Value
unwrap_or none d = d
unwrap_or (some v) d = v

-- `execute`, for at most so many steps; `none` if it has not finished by then.
unfoldable pub execute : ℕ → Target → Executor → Option (Outcome Error Value)
execute zero t x = if x.finished then some (ok (unwrap_or x.return_register unit)) else none
execute (suc fuel) t x = elim x.finished [
  | true ↦ some (ok (unwrap_or x.return_register unit))
  | false ↦ elim (step t x) [
    | ok x' ↦ execute fuel t x'
    | err e ↦ some (err e)
    | panic ↦ some panic
  ]
]

-- The handles of all functions, under the names that compiled code calls them by.
unfoldable pub map_handles {ℓ} : {A : Type ℓ} → ℕ → List (ℕ × A) → Env → Env
map_handles mod_id [] e = e
map_handles mod_id ((id, f) ∷ fs) e =
    map_handles mod_id fs
      (map_value (to_fn_id id) (function (record { mod_id = mod_id; fn_id = id })) e).0

-- `Executor::new`
unfoldable pub new :
    Metadata
    → FnHandle
    → List (ℕ × List Instruction)
    → List (ℕ × BuiltinFn)
    → List Value
    → Outcome InternalError Executor
unfolding map_handles create_stack_info
new m h compiled builtins args =
    let module_env = map_handles h.mod_id builtins (map_handles h.mod_id compiled Env.new) in
    do
      current ← create_stack_info m compiled builtins module_env h args
      ok (record {
        metadata = m;
        top = current;
        stack = [];
        compiled = compiled;
        builtins = builtins;
        return_register = none;
        module_env = module_env;
        finished = false;
      })
