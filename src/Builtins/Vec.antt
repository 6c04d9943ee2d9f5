-- ===== src/Builtins/Vec.antt =====
-- smpli/src/builtins/vec.rs: vectors as structures with a buffer and a length. Arguments are
-- values of their own, so that a write through a reference into one changes the answer alone.
pub mod Laws
use smpl_mirror.Common.{
  ℕ, zero, suc, String, List, Option, none, some, Bool, true, false, ltb, Outcome, ok, err, panic,
  ◌>>=◌, ◌>>◌, unwrapped, ok_or, if◌then◌else◌,
}
use smpl_mirror.Common.Int.{ℤ, pos, negsuc, as_usize}
use smpl_mirror.Machine.Value.{
  Float, Value, int, bool, array, struct, Array, empty, item, Struct, end, len, get, push,
  insert_at, remove_at, get_field, set_field, value_eq,
}
use smpl_mirror.Machine.Value
use smpl_mirror.Machine.Errors.{index_out_of_range, vec_error}
use smpl_mirror.Machine.Arith.{Target}
use smpl_mirror.Machine.Arith
use smpl_mirror.Builtins.Args.{
  Answer, no_args, one_arg, two_args, three_args, the_struct, the_array, the_int,
}
use smpl_mirror.Builtins.OptionValue.{make_some, make_none}

abbrev pub data_key : String
data_key = "__DATA"

abbrev pub len_key : String
len_key = "__LEN"

-- `ref_field(VEC_DATA_KEY).unwrap()` and the array in it.
unfoldable pub data_of : Struct → Answer Array
data_of s = do v ← unwrapped (get_field data_key s); the_array v

-- `ref_field(VEC_LEN_KEY).unwrap()` and the integer in it.
unfoldable pub len_of : Struct → Answer ℤ
len_of s = do v ← unwrapped (get_field len_key s); the_int v

unfoldable pub vec_new : List Value → Answer Value
unfolding no_args
vec_new args = do
  no_args args
  ok (struct (set_field len_key (int (pos 0)) (set_field data_key (array empty) end)))

unfoldable pub vec_len : List Value → Answer Value
unfolding one_arg
vec_len args = do v ← one_arg args; s ← the_struct v; unwrapped (get_field len_key s)

-- The loop of `contains`.
unfoldable pub holds : Float → Value → Array → Bool
unfolding value_eq
holds fl x empty = false
holds fl x (item v a) = if value_eq fl v x then true else holds fl x a

unfoldable pub vec_contains : Float → List Value → Answer Value
unfolding two_args data_of holds
vec_contains fl args = do
  (v, to_search) ← two_args args
  s ← the_struct v
  a ← data_of s
  ok (bool (holds fl to_search a))

-- The two writes of an operation: the buffer, then the length, which is read after the first.
unfoldable pub set_data : Struct → Array → (ℤ → Answer ℤ) → Answer Value
unfolding len_of
set_data s a change = do
  let s' = set_field data_key (array a) s
  n ← len_of s'
  n' ← change n
  ok (struct (set_field len_key (int n') s'))

unfoldable pub vec_insert : Target → List Value → Answer Value
unfolding three_args data_of set_data
vec_insert t args = do
  (v, i, to_insert) ← three_args args
  index ← the_int i
  s ← the_struct v
  a ← data_of s
  a' ← unwrapped (insert_at (as_usize index) to_insert a)
  set_data s a' (λ n. Arith.add t n (pos 1))

unfoldable pub vec_push : Target → List Value → Answer Value
unfolding two_args data_of set_data
vec_push t args = do
  (v, to_insert) ← two_args args
  s ← the_struct v
  a ← data_of s
  set_data s (push to_insert a) (λ n. Arith.add t n (pos 1))

abbrev out_of_range : {A : Type 0} → ℤ → Array → Answer A
out_of_range i a = err (vec_error (index_out_of_range i (len a)))

abbrev value_at : ℤ → Array → Answer Value
value_at (negsuc n) a = out_of_range (negsuc n) a
value_at (pos n) a = ok_or (get n a) (vec_error (index_out_of_range (pos n) (len a)))

unfoldable pub vec_get_value : List Value → Answer Value
unfolding two_args data_of
vec_get_value args = do
  (v, i) ← two_args args
  smpl_index ← the_int i
  s ← the_struct v
  a ← data_of s
  value_at smpl_index a

abbrev option_at : ℤ → Array → Answer Value
option_at (negsuc n) a = ok make_none
option_at (pos n) a = do
  v ← ok_or (get n a) (vec_error (index_out_of_range (pos n) (len a)))
  ok (make_some v)

unfoldable pub vec_get : List Value → Answer Value
unfolding two_args data_of
vec_get args = do
  (v, i) ← two_args args
  smpl_index ← the_int i
  s ← the_struct v
  a ← data_of s
  option_at smpl_index a

abbrev without : ℤ → Array → Answer Array
without (negsuc n) a = out_of_range (negsuc n) a
without (pos n) a = if ltb n (len a) then unwrapped (remove_at n a) else out_of_range (pos n) a

unfoldable pub vec_remove : Target → List Value → Answer Value
unfolding two_args data_of set_data
vec_remove t args = do
  (v, i) ← two_args args
  smpl_index ← the_int i
  s ← the_struct v
  a ← data_of s
  a' ← without smpl_index a
  set_data s a' (λ n. Arith.sub t n (pos 1))

unfoldable pub vec_clear : List Value → Answer Value
unfolding one_arg data_of set_data
vec_clear args = do
  v ← one_arg args
  s ← the_struct v
  a ← data_of s
  set_data s empty (λ n. ok (pos 0))
