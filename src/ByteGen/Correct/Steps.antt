-- ===== src/ByteGen/Correct/Steps.antt =====
-- The moves of one instruction in a frame.
use smpl_mirror.Common.{
  ℕ, suc, ◌+◌, ◌-◌, ◌≤◌, ◌<◌, ◌^◌, ◌≡◌, refl, List, some, true, false, arith, length, get_elem?,
  get_elem?-lt, ok,
}
use smpl_mirror.Common.Int.{pos, negsuc}
use smpl_mirror.ByteCode.{Arg, Instruction, rel_jump_target}
use smpl_mirror.Machine.Value.{FnHandle, Value}
use smpl_mirror.Machine.Arith.{Target}
use smpl_mirror.Machine.Instr.{
  ExecuteAction, increment_ip, add_ip, push_stack, pop_stack, execute_instruction, jump_if,
}
use smpl_mirror.Machine.Executor.{ByteCodeStack, frame_step, next_ip}
use smpl_mirror.ByteGen.Meaning.{State, Executes, Tests, at}

module _ (t : Target) (fr : ByteCodeStack) (small : length fr.current_fn < 2 ^ 63) where
  frame_step-at :
      (ip : ℕ) (i : Instruction) (s s' : State) (action : ExecuteAction) (ip' : ℕ)
      → get_elem? fr.current_fn ip ≡ some i
      → execute_instruction t i ip s.0 s.1 ≡ ok (action, s'.0, s'.1)
      → next_ip t action ip ≡ ok ip'
      → frame_step t (at fr ip s) s.1 ≡ ok (action, at fr ip' s', s'.1)
  unfolding frame_step
  frame_step-at ip i s s' action ip' g e n = rw (g, e, n)

  pub frame_step-plain :
      (ip : ℕ) (i : Instruction) (s s' : State)
      → get_elem? fr.current_fn ip ≡ some i
      → Executes t i s increment_ip s'
      → frame_step t (at fr ip s) s.1 ≡ ok (increment_ip, at fr (suc ip) s', s'.1)
  frame_step-plain ip i s s' g e =
      frame_step-at ip i s s' increment_ip (suc ip) g (e ip)
        (unfold next_ip in ground (arith, get_elem?-lt fr.current_fn ip g))

  pub frame_step-call :
      (ip : ℕ) (i : Instruction) (s s' : State) (h : FnHandle) (vs : List Value)
      → get_elem? fr.current_fn ip ≡ some i
      → Executes t i s (push_stack h vs) s'
      → frame_step t (at fr ip s) s.1 ≡ ok (push_stack h vs, at fr (suc ip) s', s'.1)
  frame_step-call ip i s s' h vs g e =
      frame_step-at ip i s s' (push_stack h vs) (suc ip) g (e ip)
        (unfold next_ip in ground (arith, get_elem?-lt fr.current_fn ip g))

  pub frame_step-return :
      (ip : ℕ) (i : Instruction) (s s' : State) (v : Value)
      → get_elem? fr.current_fn ip ≡ some i
      → Executes t i s (pop_stack v) s'
      → frame_step t (at fr ip s) s.1 ≡ ok (pop_stack v, at fr ip s', s'.1)
  frame_step-return ip i s s' v g e =
      frame_step-at ip i s s' (pop_stack v) ip g (e ip) (unfold next_ip in refl)

  -- An unconditional jump forwards, inside the code or to its end.
  pub frame_step-jump :
      (ip n : ℕ) (s : State)
      → get_elem? fr.current_fn ip ≡ some (Instruction.rel_jump (rel_jump_target (pos n)))
      → ip + n ≤ length fr.current_fn
      → frame_step t (at fr ip s) s.1 ≡ ok (add_ip (pos n), at fr (ip + n) s, s.1)
  frame_step-jump ip n s g b =
      frame_step-at ip _ s s (add_ip (pos n)) (ip + n) g (unfold execute_instruction in refl)
        (unfold next_ip in ground arith)

  pub frame_step-jump_back :
      (ip n : ℕ) (s : State)
      → get_elem? fr.current_fn ip ≡ some (Instruction.rel_jump (rel_jump_target (negsuc n)))
      → n < ip
      → frame_step t (at fr ip s) s.1 ≡ ok (add_ip (negsuc n), at fr (ip - suc n) s, s.1)
  frame_step-jump_back ip n s g b =
      frame_step-at ip _ s s (add_ip (negsuc n)) (ip - suc n) g (unfold execute_instruction in refl)
        (unfold next_ip in ground (arith, get_elem?-lt fr.current_fn ip g))

  -- A conditional jump forwards that is taken, and one that is not.
  pub frame_step-taken :
      (ip n : ℕ) (a : Arg) (s : State)
      → get_elem? fr.current_fn ip
        ≡ some (Instruction.rel_jump_condition (rel_jump_target (pos n)) a)
      → Tests s a true
      → ip + n ≤ length fr.current_fn
      → frame_step t (at fr ip s) s.1 ≡ ok (add_ip (pos n), at fr (ip + n) s, s.1)
  frame_step-taken ip n a s g c b =
      frame_step-at ip _ s s (add_ip (pos n)) (ip + n) g
        (unfold execute_instruction jump_if in rw c) (unfold next_ip in ground arith)

  pub frame_step-not_taken :
      (ip n : ℕ) (a : Arg) (s : State)
      → get_elem? fr.current_fn ip
        ≡ some (Instruction.rel_jump_condition (rel_jump_target (pos n)) a)
      → Tests s a false
      → frame_step t (at fr ip s) s.1 ≡ ok (increment_ip, at fr (suc ip) s, s.1)
  frame_step-not_taken ip n a s g c =
      frame_step-at ip _ s s increment_ip (suc ip) g (unfold execute_instruction jump_if in rw c)
        (unfold next_ip in ground (arith, get_elem?-lt fr.current_fn ip g))

  pub frame_step-skip :
      (ip n : ℕ) (a : Arg) (s : State)
      → get_elem? fr.current_fn ip
        ≡ some (Instruction.rel_jump_negate_condition (rel_jump_target (pos n)) a)
      → Tests s a false
      → ip + n ≤ length fr.current_fn
      → frame_step t (at fr ip s) s.1 ≡ ok (add_ip (pos n), at fr (ip + n) s, s.1)
  frame_step-skip ip n a s g c b =
      frame_step-at ip _ s s (add_ip (pos n)) (ip + n) g
        (unfold execute_instruction jump_if in rw c) (unfold next_ip in ground arith)

  pub frame_step-enter :
      (ip n : ℕ) (a : Arg) (s : State)
      → get_elem? fr.current_fn ip
        ≡ some (Instruction.rel_jump_negate_condition (rel_jump_target (pos n)) a)
      → Tests s a true
      → frame_step t (at fr ip s) s.1 ≡ ok (increment_ip, at fr (suc ip) s, s.1)
  frame_step-enter ip n a s g c =
      frame_step-at ip _ s s increment_ip (suc ip) g (unfold execute_instruction jump_if in rw c)
        (unfold next_ip in ground (arith, get_elem?-lt fr.current_fn ip g))
