-- ===== src/Machine/Arith.antt =====
-- The `i64` operators of `int_op!` and `Negate` in smpli/src/executor.rs. With overflow checks
-- (a debug build) `+`, `-`, `*` and negation panic when the result leaves the range; without
-- (a release build) they wrap. A division by zero and an overflowing division always panic.
pub mod Division
use smpl_mirror.Common.{Bool, not, Outcome, ok, panic, if◌then◌else◌, ◌||◌}
use smpl_mirror.Common.Int.{ℤ, pos, ◌+ℤ◌, ◌-ℤ◌, ◌*ℤ◌, quot, rem, eq_ℤ, in_i64, wrap_i64}
use smpl_mirror.Machine.Value.{Float}

-- The machine that the interpreter runs on: its floats, and how it was built.
pub record Target : Type 0 where
  pub float : Float
  pub overflow_checks : Bool

unfoldable pub fit : {E : Type 0} → Target → ℤ → Outcome E ℤ
fit t z = if in_i64 z then ok z else if t.overflow_checks then panic else ok (wrap_i64 z)

module _ {E : Type 0} (t : Target) where
  unfoldable pub add : ℤ → ℤ → Outcome E ℤ
  unfolding fit
  add a b = fit t (a +ℤ b)

  unfoldable pub sub : ℤ → ℤ → Outcome E ℤ
  unfolding fit
  sub a b = fit t (a -ℤ b)

  unfoldable pub mul : ℤ → ℤ → Outcome E ℤ
  unfolding fit
  mul a b = fit t (a *ℤ b)

  unfoldable pub neg : ℤ → Outcome E ℤ
  unfolding fit
  neg a = fit t (pos 0 -ℤ a)

unfoldable pub div : {E : Type 0} → ℤ → ℤ → Outcome E ℤ
div a b = if eq_ℤ b (pos 0) || not (in_i64 (quot a b)) then panic else ok (quot a b)

unfoldable pub modulo : {E : Type 0} → ℤ → ℤ → Outcome E ℤ
modulo a b = if eq_ℤ b (pos 0) || not (in_i64 (quot a b)) then panic else ok (rem a b)
