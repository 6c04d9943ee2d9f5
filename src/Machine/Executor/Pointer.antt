-- ===== src/Machine/Executor/Pointer.antt =====
-- smpli/src/executor.rs: the instruction pointer after a relative jump.
use smpl_mirror.Common.{ℕ, ◌<◌, ◌^◌, ◌-◌, ◌≡◌, ◌≢◌, ok, arith}
use smpl_mirror.Common.Int.{ℤ, pos, negsuc, ◌+ℤ◌}
use smpl_mirror.Machine.Arith.{Target}
use smpl_mirror.Machine.Instr.{add_ip}
use smpl_mirror.Machine.Executor.{next_ip}

-- A relative jump that succeeds leads exactly to the sum of the pointer and the distance, within
-- the 64 bits of the pointer: it never wraps around.
pub next_ip-exact :
    (t : Target) (z : ℤ) (ip ip' : ℕ)
    → ip < 2 ^ 64
    → next_ip t (add_ip z) ip ≡ ok ip'
    → (ip' < 2 ^ 64) × (pos ip' ≡ pos ip +ℤ z)
unfolding next_ip ◌+ℤ◌
next_ip-exact t (pos n) ip ip' b h = ground arith
next_ip-exact t (negsuc n) ip ip' b h = ground arith

-- A relative jump succeeds wherever its target is a pointer of 64 bits, unless the distance is
-- the least integer of 64 bits, whose negation overflows.
pub next_ip-total :
    (t : Target) (z : ℤ) (ip ip' : ℕ)
    → z ≢ negsuc (2 ^ 63 - 1)
    → ip' < 2 ^ 64
    → pos ip' ≡ pos ip +ℤ z
    → next_ip t (add_ip z) ip ≡ ok ip'
unfolding next_ip ◌+ℤ◌
next_ip-total t (pos n) ip ip' d b h = ground arith
next_ip-total t (negsuc n) ip ip' d b h = ground arith
