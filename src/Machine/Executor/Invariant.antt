-- ===== src/Machine/Executor/Invariant.antt =====
-- smpli/src/executor.rs: what every step of the executor keeps.
use mathlib.Core.Path.{subst}
use smpl_mirror.Common.{
  ◌≡◌, refl, sym, ap, List, [], ◌∷◌, Option, some, true, false, Outcome, ok, >>=-eq-ok, map_err,
  ok_or, arith, lookup_id, length, ℕ, get_elem?,
}
use smpl_mirror.Machine.Value.{FnHandle, Value}
use smpl_mirror.ByteCode.{Instruction}
use smpl_mirror.Machine.Env.{Env}
use smpl_mirror.Machine.Errors.{internal, instruction_pointer_out_of_bounds}
use smpl_mirror.Machine.Arith.{Target}
use smpl_mirror.Machine.Instr.{
  ExecuteAction, increment_ip, set_ip, add_ip, push_stack, pop_stack, execute_instruction,
}
use smpl_mirror.Machine.Executor.{
  BuiltinFn, Metadata, is_builtin, ByteCodeStack, StackInfo, byte_code_stack, builtin_stack,
  Executor, create_stack_info, new_builtin_stack, new_byte_code_stack, next_ip, frame_step,
  top_step, popped, act, step, new,
}

-- A frame runs the function of its handle: a builtin by its function, any other by its code.
abbrev pub IsFrame :
    Metadata → List (ℕ × List Instruction) → List (ℕ × BuiltinFn) → StackInfo → Type 0
IsFrame m compiled builtins (byte_code_stack fr) =
    (is_builtin m fr.handle.fn_id ≡ false)
    × (lookup_id fr.handle.fn_id compiled ≡ some fr.current_fn)
IsFrame m compiled builtins (builtin_stack b) =
    (is_builtin m b.handle.fn_id ≡ true) × (lookup_id b.handle.fn_id builtins ≡ some b.current_fn)

pub data AllFrames (m : Metadata) (compiled : List (ℕ × List Instruction))
    (builtins : List (ℕ × BuiltinFn)) : List StackInfo → Type 0 where
  no_frames : AllFrames m compiled builtins []
  frames :
      {f : StackInfo} {fs : List StackInfo}
      → IsFrame m compiled builtins f
      → AllFrames m compiled builtins fs
      → AllFrames m compiled builtins (f ∷ fs)

-- Every frame runs the function of its handle, and an executor that has finished has no caller
-- left to return to and holds the value of the last return.
pub record IsWellFormed (x : Executor) : Type 0 where
  pub top : IsFrame x.metadata x.compiled x.builtins x.top
  pub callers : AllFrames x.metadata x.compiled x.builtins x.stack
  pub ended : x.finished ≡ true → (x.stack ≡ []) × (v : Value) × (x.return_register ≡ some v)

create_stack_info-IsFrame :
    (m : Metadata) (compiled : List (ℕ × List Instruction)) (builtins : List (ℕ × BuiltinFn))
    (e : Env) (h : FnHandle) (args : List Value) {f : StackInfo}
    → create_stack_info m compiled builtins e h args ≡ ok f
    → IsFrame m compiled builtins f
unfolding create_stack_info new_builtin_stack new_byte_code_stack
create_stack_info-IsFrame m compiled builtins e h args {f = byte_code_stack fr} c = ground arith
create_stack_info-IsFrame m compiled builtins e h args {f = builtin_stack b} c = ground arith

map_err-eq-ok :
    {E F A : Type 0} (g : E → F) (r : Outcome E A) {a : A} → map_err g r ≡ ok a → r ≡ ok a
map_err-eq-ok g (ok a) h = cc
map_err-eq-ok g (Outcome.err e) h = cc
map_err-eq-ok g Outcome.panic h = cc

ok_inj : {E A : Type 0} {a b : A} → ◌≡◌ {A = Outcome E A} (ok a) (ok b) → a ≡ b
ok_inj h = cc

-- A step in a frame keeps its function.
frame_step-keeps :
    (t : Target) (fr : ByteCodeStack) (reg : Option Value) {action : ExecuteAction}
    {fr' : ByteCodeStack} {reg' : Option Value}
    → frame_step t fr reg ≡ ok (action, fr', reg')
    → (fr'.handle ≡ fr.handle) × (fr'.current_fn ≡ fr.current_fn)
unfolding frame_step
frame_step-keeps t fr reg h =
    let (i, p, h₁) =
      >>=-eq-ok
        (ok_or (get_elem? fr.current_fn fr.instruction_pointer)
          (instruction_pointer_out_of_bounds fr.instruction_pointer (length fr.current_fn)))
        _ h in
    let ((action, env, reg'), q, h₂) =
      >>=-eq-ok (execute_instruction t i fr.instruction_pointer fr.env reg) _ h₁ in
    let (ip, u, h₃) = >>=-eq-ok (next_ip t action fr.instruction_pointer) _ h₂ in
    let same = sym (ok_inj h₃) in
    (
      ap (λ (r : ExecuteAction × ByteCodeStack × Option Value). r.1.handle) same,
      ap (λ (r : ExecuteAction × ByteCodeStack × Option Value). r.1.current_fn) same,
    )

top_step-IsFrame :
    (t : Target) (m : Metadata) (compiled : List (ℕ × List Instruction))
    (builtins : List (ℕ × BuiltinFn)) (f : StackInfo) (reg : Option Value) {action : ExecuteAction}
    {f' : StackInfo} {reg' : Option Value}
    → IsFrame m compiled builtins f
    → top_step t f reg ≡ ok (action, f', reg')
    → IsFrame m compiled builtins f'
unfolding top_step
top_step-IsFrame t m compiled builtins (byte_code_stack fr) reg w h =
    let ((action, fr', reg'), p, h₁) = >>=-eq-ok (map_err internal (frame_step t fr reg)) _ h in
    let (same_handle, same_code) =
      frame_step-keeps t fr reg (map_err-eq-ok internal (frame_step t fr reg) p) in
    subst (IsFrame m compiled builtins)
      (ap (λ (r : ExecuteAction × StackInfo × Option Value). r.1) (ok_inj h₁))
      (rw (same_handle, same_code) w)
top_step-IsFrame t m compiled builtins (builtin_stack b) reg w h =
    let (v, p, h₁) = >>=-eq-ok (b.current_fn b.args) _ h in
    subst (IsFrame m compiled builtins)
      (ap (λ (r : ExecuteAction × StackInfo × Option Value). r.1) (ok_inj h₁)) w

popped-IsWellFormed :
    (x : Executor) (v : Value) (stack : List StackInfo)
    → x.stack ≡ stack
    → AllFrames x.metadata x.compiled x.builtins stack
    → x.finished ≡ false
    → IsWellFormed x
    → IsWellFormed (popped x stack v)
popped-IsWellFormed x v [] same all n w = record {
  top = w.top;
  callers = w.callers;
  ended = λ e. (same, v, refl);
}
popped-IsWellFormed x v (caller ∷ callers) same (AllFrames.frames f fs) n w = record {
  top = f;
  callers = fs;
  ended = λ e. cc;
}

act-IsWellFormed :
    (x : Executor) (action : ExecuteAction) {x' : Executor}
    → x.finished ≡ false
    → IsWellFormed x
    → act x action ≡ ok x'
    → IsWellFormed x'
unfolding act
act-IsWellFormed x increment_ip n w h = subst IsWellFormed (ok_inj h) w
act-IsWellFormed x (set_ip i) n w h = subst IsWellFormed (ok_inj h) w
act-IsWellFormed x (add_ip i) n w h = subst IsWellFormed (ok_inj h) w
act-IsWellFormed x (push_stack f args) n w h =
    let create = create_stack_info x.metadata x.compiled x.builtins x.module_env f args in
    let (callee, p, h₁) = >>=-eq-ok (map_err internal create) _ h in
    subst IsWellFormed (ok_inj h₁) (record {
      top =
          create_stack_info-IsFrame x.metadata x.compiled x.builtins x.module_env f args
            (map_err-eq-ok internal create p);
      callers = AllFrames.frames w.top w.callers;
      ended = λ e. cc;
    })
act-IsWellFormed x (pop_stack v) n w h =
    subst IsWellFormed (ok_inj h) (popped-IsWellFormed x v x.stack refl w.callers n w)

-- Where the executor goes on after a return: in the caller, or nowhere.
abbrev pub Resumes : List StackInfo → Executor → Type 0
Resumes [] x' = (x'.stack ≡ []) × (x'.finished ≡ true)
Resumes (caller ∷ callers) x' = (x'.top ≡ caller) × (x'.stack ≡ callers) × (x'.finished ≡ false)

-- Where the executor goes on after the action, given the callers and the frame it was done in: after
-- a return the register holds the returned value, a call puts the frame among the callers, and
-- otherwise the frame goes on, with what its instruction left in the register.
abbrev pub Follows : List StackInfo → StackInfo → Option Value → ExecuteAction → Executor → Type 0
Follows callers top reg (pop_stack v) x' = (x'.return_register ≡ some v) × Resumes callers x'
Follows callers top reg (push_stack f args) x' =
    (x'.stack ≡ top ∷ callers) × (x'.return_register ≡ reg) × (x'.finished ≡ false)
Follows callers top reg action x' =
    (x'.top ≡ top) × (x'.stack ≡ callers) × (x'.return_register ≡ reg) × (x'.finished ≡ false)

popped-Follows :
    (x : Executor) (v : Value) (stack : List StackInfo)
    → x.stack ≡ stack
    → x.finished ≡ false
    → ((popped x stack v).return_register ≡ some v) × Resumes stack (popped x stack v)
popped-Follows x v [] same n = (refl, (same, refl))
popped-Follows x v (caller ∷ callers) same n = (refl, (refl, refl, n))

act-Follows :
    (x : Executor) (action : ExecuteAction) {x' : Executor}
    → x.finished ≡ false
    → act x action ≡ ok x'
    → Follows x.stack x.top x.return_register action x'
unfolding act
act-Follows x increment_ip n h =
    subst (Follows x.stack x.top x.return_register increment_ip) (ok_inj h) (refl, refl, refl, n)
act-Follows x (set_ip i) n h =
    subst (Follows x.stack x.top x.return_register (set_ip i)) (ok_inj h) (refl, refl, refl, n)
act-Follows x (add_ip i) n h =
    subst (Follows x.stack x.top x.return_register (add_ip i)) (ok_inj h) (refl, refl, refl, n)
act-Follows x (push_stack f args) n h =
    let create = create_stack_info x.metadata x.compiled x.builtins x.module_env f args in
    let (callee, p, h₁) = >>=-eq-ok (map_err internal create) _ h in
    subst (Follows x.stack x.top x.return_register (push_stack f args)) (ok_inj h₁) (refl, refl, n)
act-Follows x (pop_stack v) n h =
    subst (Follows x.stack x.top x.return_register (pop_stack v)) (ok_inj h)
      (popped-Follows x v x.stack refl n)

-- A step that succeeds, of a well-formed executor that has not finished, leaves a well-formed
-- executor: every frame still runs the function of its handle, as a builtin or as code, and an
-- executor that has finished has no caller left and a value in the register. The step does one
-- action in the top frame. If that is a return, the returned value is in the register, and the
-- executor goes on in the caller, or has finished if there is none; if it is a call, the frame is
-- the first of the callers; otherwise the frame goes on.
pub step-IsWellFormed :
    (t : Target) (x : Executor) {x' : Executor}
    → x.finished ≡ false
    → IsWellFormed x
    → step t x ≡ ok x'
    → IsWellFormed x'
      × ((action : ExecuteAction) × (top : StackInfo) × (reg : Option Value) × (top_step t x.top
              x.return_register
            ≡ ok (action, top, reg))
          × Follows x.stack top reg action x')
unfolding step
step-IsWellFormed t x n w h =
    let ((action, top, reg), p, h₁) = >>=-eq-ok (top_step t x.top x.return_register) _ h in
    let y : Executor = record x { top = top; return_register = reg } in
    let well : IsWellFormed y = record {
      top = top_step-IsFrame t x.metadata x.compiled x.builtins x.top x.return_register w.top p;
      callers = w.callers;
      ended = λ e. cc;
    } in
    (act-IsWellFormed y action n well h₁, (action, top, reg, p, act-Follows y action n h₁))

pub new-IsWellFormed :
    (m : Metadata) (h : FnHandle) (compiled : List (ℕ × List Instruction))
    (builtins : List (ℕ × BuiltinFn)) (args : List Value) {x : Executor}
    → new m h compiled builtins args ≡ ok x
    → IsWellFormed x
unfolding new
new-IsWellFormed m h compiled builtins args e =
    let (current, p, e₁) = >>=-eq-ok (create_stack_info m compiled builtins _ h args) _ e in
    subst IsWellFormed (ok_inj e₁) (record {
      top = create_stack_info-IsFrame m compiled builtins _ h args p;
      callers = AllFrames.no_frames;
      ended = λ f. cc;
    })
