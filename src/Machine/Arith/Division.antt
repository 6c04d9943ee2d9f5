-- ===== src/Machine/Arith/Division.antt =====
-- The division and the remainder of `DivI` and `ModI` in smpli/src/executor.rs.
use native.Mathlib.Nat.{div-add-mod', mod-lt, mod-le}
use smpl_mirror.Common.{ℕ, zero, suc, ◌+◌, ◌*◌, ◌/◌, ◌%◌, ◌≤◌, ◌<◌, ◌≡◌, ok, arith}
use smpl_mirror.Common.Int.{ℤ, pos, negsuc, pos_part, neg_part, sub_ℕ, quot, rem, ◌+ℤ◌, ◌*ℤ◌}
use smpl_mirror.Machine.Arith.{div, modulo}

module _ (q r b a : ℕ) (sum : q * b + r ≡ a) where
  pos-pos : pos q *ℤ pos b +ℤ pos r ≡ pos a
  unfolding ◌+ℤ◌ ◌*ℤ◌
  pos-pos = ground arith

neg-by : (q r k a : ℕ) → q * suc k + r ≡ a → sub_ℕ 0 q *ℤ negsuc k +ℤ pos r ≡ pos a
unfolding ◌+ℤ◌ ◌*ℤ◌
neg-by zero r k a h = ground arith
neg-by (suc q) r k a h = ground arith

neg-pos : (q r b n : ℕ) → q * b + r ≡ suc n → sub_ℕ 0 q *ℤ pos b +ℤ sub_ℕ 0 r ≡ negsuc n
unfolding ◌+ℤ◌ ◌*ℤ◌
neg-pos zero r b n h = ground arith
neg-pos (suc q) r b n h = ground arith

neg-neg : (q r k n : ℕ) → q * suc k + r ≡ suc n → pos q *ℤ negsuc k +ℤ sub_ℕ 0 r ≡ negsuc n
unfolding ◌+ℤ◌ ◌*ℤ◌
neg-neg q zero k n h = ground arith
neg-neg q (suc r) k n h = ground arith

b-zero : (b : ℕ) → b + 0 ≡ b
b-zero b = omega arith

zero-b : (k : ℕ) → 0 + suc k ≡ suc k
zero-b k = omega arith

quot-rem : (a b : ℤ) → quot a b *ℤ b +ℤ rem a b ≡ a
unfolding quot rem
quot-rem (pos a) (pos b) = pos-pos (a / b) (a % (b + 0)) b a (rw (b-zero b) (div-add-mod' a b))
quot-rem (pos a) (negsuc k) =
    neg-by (a / suc k) (a % (0 + suc k)) k a (rw (zero-b k) (div-add-mod' a (suc k)))
quot-rem (negsuc n) (pos b) =
    neg-pos (suc n / b) (suc n % (b + 0)) b n (rw (b-zero b) (div-add-mod' (suc n) b))
quot-rem (negsuc n) (negsuc k) =
    neg-neg (suc n / suc k) (suc n % (0 + suc k)) k n (rw (zero-b k) (div-add-mod' (suc n) (suc k)))

-- The remainder is smaller than the divisor, and has the sign of the dividend.
abbrev pub IsRemainder : ℤ → ℤ → ℤ → Type 0
IsRemainder a b r =
    (pos_part r + neg_part r < pos_part b + neg_part b)
    × (pos_part r ≤ pos_part a)
    × (neg_part r ≤ neg_part a)

rem-IsRemainder : (a b : ℤ) → 0 < pos_part b + neg_part b → IsRemainder a b (rem a b)
unfolding rem
rem-IsRemainder (pos a) b h =
    let m = pos_part b + neg_part b in (omega (arith, mod-lt a {m = m} h), mod-le a m, omega arith)
rem-IsRemainder (negsuc n) b h =
    let m = pos_part b + neg_part b in
    (ground (arith, mod-lt (suc n) {m = m} h), ground arith, ground (arith, mod-le (suc n) m))

module _ {E : Type 0} where
  div-parts :
      (a b q : ℤ)
      → div {E = E} a b ≡ ok q
      → (modulo {E = E} a b ≡ ok (rem a b)) × (quot a b ≡ q) × (0 < pos_part b + neg_part b)
  unfolding div modulo
  div-parts a b q h = ground arith

  -- If `/` answers a quotient, `%` answers a remainder: the quotient times the divisor, plus the
  -- remainder, is the dividend, and the remainder is smaller than the divisor in magnitude and has
  -- the sign of the dividend.
  pub div-modulo :
      (a b q : ℤ)
      → div {E = E} a b ≡ ok q
      → (r : ℤ) × (modulo {E = E} a b ≡ ok r) × (q *ℤ b +ℤ r ≡ a) × IsRemainder a b r
  div-modulo a b q h =
      let (m, same, nonzero) = div-parts a b q h in
      (rem a b, m, rw (← same) (quot-rem a b), rem-IsRemainder a b nonzero)
