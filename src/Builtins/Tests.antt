-- ===== src/Builtins/Tests.antt =====
-- Vectors and options of one, two and three elements.
use smpl_mirror.Common.{◌≡◌, refl, [], ◌∷◌, ok, err, panic, arith, true, false}
use smpl_mirror.Common.Int.{pos, negsuc, as_usize}
use smpl_mirror.Machine.Value.{
  Value, int, bool, string, array, struct, from_list, get_field, end, entry, item, empty,
}
use smpl_mirror.Machine.Errors.{
  vec_error, index_out_of_range, option_error, unwrap_failed, expect_failed,
}
use smpl_mirror.Machine.Sample.{debug, whole}
use smpl_mirror.Builtins.OptionValue.{
  make_none, builtin_make_some, builtin_unwrap, builtin_expect, builtin_is_some, builtin_is_none,
  builtin_make_none,
}
use smpl_mirror.Builtins.OptionValue.Laws.{builtin_unwrap-make_some, builtin_unwrap-make_none}
use smpl_mirror.Builtins.Vec.{
  vec_new, vec_len, vec_push, vec_insert, vec_remove, vec_get_value, vec_get, vec_clear,
}
use smpl_mirror.Builtins.Vec.Laws.{
  IsVec, vec, push_all, vec_new-push_all, vec_push-IsVec, vec_insert-IsVec, vec_insert-beyond,
  vec_remove-IsVec, vec_remove-beyond, vec_get_value-IsVec, vec_get-IsVec, vec_clear-IsVec,
}

abbrev one : Value
one = int (pos 1)

abbrev two : Value
two = int (pos 2)

abbrev pair : Value
pair = struct (entry "__DATA" (array (item one (item two empty))) (entry "__LEN" (int (pos 2)) end))

pair-IsVec : IsVec pair (one ∷ two ∷ [])
unfolding get_field from_list
pair-IsVec = vec refl refl

vec_new-push_all_example :
    (v₀ : Value) × (v : Value) × (vec_new [] ≡ ok v₀)
    × (push_all debug (one ∷ two ∷ bool true ∷ []) v₀ ≡ ok v)
    × (vec_len (v ∷ []) ≡ ok (int (pos 3)))
    × (vec_get_value (v ∷ int (pos 1) ∷ []) ≡ ok two)
vec_new-push_all_example = vec_new-push_all debug (one ∷ []) (bool true ∷ []) two (omega arith)

vec_push-IsVec_example :
    (v : Value) × (vec_push debug (pair ∷ bool true ∷ []) ≡ ok v)
    × IsVec v (one ∷ two ∷ bool true ∷ [])
vec_push-IsVec_example = vec_push-IsVec debug (bool true) (omega arith) pair-IsVec

vec_insert-IsVec_example :
    (v : Value) × (vec_insert debug (pair ∷ int (pos 1) ∷ bool true ∷ []) ≡ ok v)
    × IsVec v (one ∷ bool true ∷ two ∷ [])
vec_insert-IsVec_example =
    vec_insert-IsVec debug (one ∷ []) (two ∷ []) (bool true) (omega arith) pair-IsVec

vec_insert-beyond_example : vec_insert debug (pair ∷ int (pos 3) ∷ one ∷ []) ≡ panic
unfolding as_usize
vec_insert-beyond_example =
    vec_insert-beyond debug (one ∷ two ∷ []) one (pos 3) (omega arith) refl (omega arith) pair-IsVec

vec_remove-IsVec_example :
    (v : Value) × (vec_remove debug (pair ∷ int (pos 1) ∷ []) ≡ ok v) × IsVec v (one ∷ [])
vec_remove-IsVec_example = vec_remove-IsVec debug (one ∷ []) [] two (omega arith) pair-IsVec

vec_remove-beyond_example :
    vec_remove debug (pair ∷ int (pos 2) ∷ []) ≡ err (vec_error (index_out_of_range (pos 2) 2))
vec_remove-beyond_example =
    vec_remove-beyond debug (one ∷ two ∷ []) (pos 2) (omega arith) pair-IsVec

vec_get_value-IsVec_example :
    (vec_get_value (pair ∷ int (pos 1) ∷ []) ≡ ok two)
    × (vec_get_value (pair ∷ int (negsuc 1) ∷ [])
        ≡ err (vec_error (index_out_of_range (negsuc 1) 2)))
vec_get_value-IsVec_example = vec_get_value-IsVec (one ∷ two ∷ []) 1 pair-IsVec

vec_get-IsVec_example :
    (vec_get (pair ∷ int (pos 2) ∷ []) ≡ err (vec_error (index_out_of_range (pos 2) 2)))
    × (vec_get (pair ∷ int (negsuc 2) ∷ []) ≡ ok make_none)
vec_get-IsVec_example = vec_get-IsVec (one ∷ two ∷ []) 2 pair-IsVec

vec_clear-IsVec_example : (v : Value) × (vec_clear (pair ∷ []) ≡ ok v) × IsVec v []
vec_clear-IsVec_example = vec_clear-IsVec pair-IsVec

builtin_unwrap-make_some_example :
    (o : Value) × (builtin_make_some (one ∷ []) ≡ ok o)
    × (builtin_unwrap whole (o ∷ []) ≡ ok one)
    × (builtin_expect whole (o ∷ string "empty" ∷ []) ≡ ok one)
    × (builtin_is_some whole (o ∷ []) ≡ ok (bool true))
    × (builtin_is_none whole (o ∷ []) ≡ ok (bool false))
builtin_unwrap-make_some_example = builtin_unwrap-make_some whole one "empty"

builtin_unwrap-make_none_example :
    (o : Value) × (builtin_make_none [] ≡ ok o)
    × (builtin_unwrap whole (o ∷ []) ≡ err (option_error unwrap_failed))
    × (builtin_expect whole (o ∷ string "empty" ∷ []) ≡ err (option_error (expect_failed "empty")))
    × (builtin_is_some whole (o ∷ []) ≡ ok (bool false))
    × (builtin_is_none whole (o ∷ []) ≡ ok (bool true))
builtin_unwrap-make_none_example = builtin_unwrap-make_none whole "empty"
