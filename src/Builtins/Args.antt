-- ===== src/Builtins/Args.antt =====
-- The macros `no_args!` and `exact_args!` of smpli/src/err.rs, with the `pop`s that follow them.
-- `irmatch!` (of the crate of that name) panics where its pattern does not match.
use smpl_mirror.Common.{ℕ, List, [], ◌∷◌, Outcome, ok, err, panic, length, String}
use smpl_mirror.Common.Int.{ℤ}
use smpl_mirror.Machine.Value.{Value, int, string, array, struct, Array, Struct}
use smpl_mirror.Machine.Errors.{exact, invalid_arg_count, Error, internal}

abbrev pub Answer : Type 0 → Type 0
Answer A = Outcome Error A

abbrev pub wrong_count {ℓ} : {A : Type 0} {B : Type ℓ} → List B → ℕ → Answer A
wrong_count args n = err (internal (invalid_arg_count (length args) (exact n)))

unfoldable pub no_args : List Value → Answer (Unit {0})
no_args [] = ok tt
no_args args = wrong_count args 0

unfoldable pub one_arg : List Value → Answer Value
one_arg (a ∷ []) = ok a
one_arg args = wrong_count args 1

unfoldable pub two_args : List Value → Answer (Value × Value)
two_args (a ∷ b ∷ []) = ok (a, b)
two_args args = wrong_count args 2

unfoldable pub three_args : List Value → Answer (Value × Value × Value)
three_args (a ∷ b ∷ c ∷ []) = ok (a, b, c)
three_args args = wrong_count args 3

abbrev pub the_struct : Value → Answer Struct
the_struct (struct s) = ok s
the_struct _ = panic

abbrev pub the_array : Value → Answer Array
the_array (array a) = ok a
the_array _ = panic

abbrev pub the_int : Value → Answer ℤ
the_int (int i) = ok i
the_int _ = panic

abbrev pub the_string : Value → Answer String
the_string (string s) = ok s
the_string _ = panic
