-- ===== src/Builtins/OptionValue/Laws.antt =====
-- What the option builtins answer to the options that they make.
use smpl_mirror.Common.{String, [], ◌∷◌, true, false, ok, err, ◌≡◌, refl}
use smpl_mirror.Machine.Value.{Float, Value, bool, string, get_field, set_field, value_eq}
use smpl_mirror.Machine.Errors.{unwrap_failed, expect_failed, option_error}
use smpl_mirror.Builtins.OptionValue.{
  make_some, make_none, builtin_make_some, builtin_is_some, builtin_unwrap, builtin_expect,
  builtin_make_none, builtin_is_none,
}

-- A value that goes through `some` comes back from `unwrap` and from `expect`, whatever the
-- message, and the option is some and not none.
pub builtin_unwrap-make_some :
    (fl : Float) (v : Value) (message : String)
    → (o : Value) × (builtin_make_some (v ∷ []) ≡ ok o)
      × (builtin_unwrap fl (o ∷ []) ≡ ok v)
      × (builtin_expect fl (o ∷ string message ∷ []) ≡ ok v)
      × (builtin_is_some fl (o ∷ []) ≡ ok (bool true))
      × (builtin_is_none fl (o ∷ []) ≡ ok (bool false))
unfolding builtin_make_some builtin_unwrap builtin_expect builtin_is_some builtin_is_none get_field
    set_field value_eq
builtin_unwrap-make_some fl v message = (make_some v, refl, refl, refl, refl, refl)

-- `none` is none and not some; `unwrap` fails on it, and `expect` fails with the message.
pub builtin_unwrap-make_none :
    (fl : Float) (message : String)
    → (o : Value) × (builtin_make_none [] ≡ ok o)
      × (builtin_unwrap fl (o ∷ []) ≡ err (option_error unwrap_failed))
      × (builtin_expect fl (o ∷ string message ∷ []) ≡ err (option_error (expect_failed message)))
      × (builtin_is_some fl (o ∷ []) ≡ ok (bool false))
      × (builtin_is_none fl (o ∷ []) ≡ ok (bool true))
unfolding builtin_make_none builtin_unwrap builtin_expect builtin_is_some builtin_is_none get_field
    set_field value_eq
builtin_unwrap-make_none fl message = (make_none, refl, refl, refl, refl, refl)
