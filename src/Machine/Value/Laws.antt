-- ===== src/Machine/Value/Laws.antt =====
-- Reads after writes of the arrays and structures of `Machine.Value`.
use smpl_mirror.Common.{
  ℕ, zero, suc, String, ◌≡◌, refl, some, Option-cases, if◌then◌else◌, str_eq, eq_iff, arith, inl,
  inr,
}
use smpl_mirror.Machine.Value.{
  Value, Array, empty, item, Struct, end, entry, get, set_at, get_field, set_field,
}

pub get_field-set_field :
    (k j : String) (v : Value) (s : Struct)
    → get_field j (set_field k v s) ≡ (if str_eq k j then some v else get_field j s)
unfolding get_field set_field
get_field-set_field k j v end = refl
get_field-set_field k j v (entry i w s) =
    ground (arith, eq_iff k j, eq_iff i k, eq_iff i j, get_field-set_field k j v s)

pub get_field-set_field_self :
    (k : String) (v : Value) (s : Struct) → get_field k (set_field k v s) ≡ some v
get_field-set_field_self k v s = ground (arith, eq_iff k k, get_field-set_field k k v s)

pub get-set_at : (i : ℕ) (v : Value) (a b : Array) → set_at i v a ≡ some b → get i b ≡ some v
unfolding get set_at
get-set_at zero v empty b h = cc
get-set_at (suc i) v empty b h = cc
get-set_at zero v (item w a) b h = ground arith
get-set_at (suc i) v (item w a) b h = elim (Option-cases (set_at i v a)) [
  | inl e ↦ ground arith
  | inr (c, e) ↦ ground (arith, get-set_at i v a c e)
]

pub set_at-total :
    (i : ℕ) (v w : Value) (a : Array) → get i a ≡ some w → (b : Array) × (set_at i v a ≡ some b)
unfolding get set_at
set_at-total zero v w empty h = cc
set_at-total (suc i) v w empty h = cc
set_at-total zero v w (item u a) h = (item v a, refl)
set_at-total (suc i) v w (item u a) h = let (b, p) = set_at-total i v w a h in (item u b, rw p)
