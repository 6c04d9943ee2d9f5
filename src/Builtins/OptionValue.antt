-- ===== src/Builtins/OptionValue.antt =====
-- smpli/src/builtins/option.rs: options as structures with a tag. Tags are compared by
-- `PartialEq` on values, which takes the machine's floats.
pub mod Laws
use smpl_mirror.Common.{
  String, List, Option, none, some, Bool, true, false, Outcome, ok, err, ◌>>=◌, ◌>>◌, ok_or,
  if◌then◌else◌,
}
use smpl_mirror.Common.Int.{ℤ, pos}
use smpl_mirror.Machine.Value.{
  Float, Value, int, bool, struct, Struct, end, get_field, set_field, value_eq,
}
use smpl_mirror.Machine.Errors.{non_option, unwrap_failed, expect_failed, Error, option_error}
use smpl_mirror.Builtins.Args.{Answer, no_args, one_arg, two_args, the_string}

abbrev pub data_key : String
data_key = "__DATA"

abbrev pub tag_key : String
tag_key = "__TAG"

abbrev pub some_tag : Value
some_tag = int (pos 1)

abbrev pub none_tag : Value
none_tag = int (pos 0)

unfoldable pub make_some : Value → Value
make_some v = struct (set_field tag_key some_tag (set_field data_key v end))

unfoldable pub make_none : Value
make_none = struct (set_field tag_key none_tag end)

abbrev has_tag : Float → Value → Option Value → Bool
has_tag fl tag none = false
has_tag fl tag (some v) = value_eq fl v tag

unfoldable pub is_some : Float → Value → Bool
is_some fl (struct inner) = has_tag fl some_tag (get_field tag_key inner)
is_some fl _ = false

unfoldable pub is_none : Float → Value → Bool
is_none fl (struct inner) = has_tag fl none_tag (get_field tag_key inner)
is_none fl _ = false

-- `unwrap` and `expect` differ in the error for a `none`.
abbrev open_or : Float → Error → Value → Answer Value
open_or fl e (struct inner) = do
  tag ← ok_or (get_field tag_key inner) (option_error non_option)
  if value_eq fl tag some_tag
      then ok_or (get_field data_key inner) (option_error non_option)
      else err e
open_or fl e _ = err (option_error non_option)

unfoldable pub unwrap : Float → Value → Answer Value
unwrap fl v = open_or fl (option_error unwrap_failed) v

unfoldable pub expect : Float → Value → String → Answer Value
expect fl v message = open_or fl (option_error (expect_failed message)) v

unfoldable pub builtin_make_some : List Value → Answer Value
unfolding one_arg make_some
builtin_make_some args = do v ← one_arg args; ok (make_some v)

unfoldable pub builtin_is_some : Float → List Value → Answer Value
unfolding one_arg is_some
builtin_is_some fl args = do v ← one_arg args; ok (bool (is_some fl v))

unfoldable pub builtin_unwrap : Float → List Value → Answer Value
unfolding one_arg unwrap
builtin_unwrap fl args = do v ← one_arg args; unwrap fl v

unfoldable pub builtin_expect : Float → List Value → Answer Value
unfolding two_args expect
builtin_expect fl args = do (v, m) ← two_args args; message ← the_string m; expect fl v message

unfoldable pub builtin_make_none : List Value → Answer Value
unfolding no_args make_none
builtin_make_none args = do no_args args; ok make_none

unfoldable pub builtin_is_none : Float → List Value → Answer Value
unfolding one_arg is_none
builtin_is_none fl args = do v ← one_arg args; ok (bool (is_none fl v))
