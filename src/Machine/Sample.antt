-- ===== src/Machine/Sample.antt =====
-- A machine to run the tests on: floats that stand for small whole numbers.
use smpl_mirror.Common.{◌+◌, ◌-◌, ◌*◌, ◌/◌, ◌%◌, true, ltb, leb, ◌==◌}
use smpl_mirror.Machine.Value.{Float}
use smpl_mirror.Machine.Arith.{Target}

abbrev pub whole : Float
whole = record {
  add = λ a b. a + b;
  sub = λ a b. a - b;
  mul = λ a b. a * b;
  div = λ a b. a / b;
  rem = λ a b. a % b;
  neg = λ a. a;
  equal = λ a b. a == b;
  less = λ a b. ltb a b;
  less_eq = λ a b. leb a b;
}

abbrev pub debug : Target
debug = record { float = whole; overflow_checks = true }
