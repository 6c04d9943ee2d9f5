-- ===== src/Names.antt =====
-- smpl/src/code_gen/byte_gen/byte_expr.rs: the names that the code generator gives to temporaries
-- and functions, and the decimal form of a number that `format!` writes.
use smpl_mirror.Common.{
  ℕ, zero, suc, ◌/◌, ◌%◌, String, List, [], ◌∷◌, some, none, get_elem?, ltb, if◌then◌else◌,
}
use Prim.Native.String.{◌++◌}

abbrev digits : List String
digits = "0" ∷ "1" ∷ "2" ∷ "3" ∷ "4" ∷ "5" ∷ "6" ∷ "7" ∷ "8" ∷ "9" ∷ []

abbrev digit : ℕ → String
digit n = elim (get_elem? digits n) [ some d ↦ d | none ↦ "" ]

-- A number below 10^fuel.
unfoldable pub decimal_fuel : ℕ → ℕ → String
decimal_fuel zero n = ""
decimal_fuel (suc fuel) n =
    let front = decimal_fuel fuel (n / 10) in if ltb n 10 then digit n else front ++ digit (n % 10)

-- Ids are `u64`s, of at most 20 digits.
unfoldable pub decimal : ℕ → String
unfolding decimal_fuel
decimal n = decimal_fuel 20 n

unfoldable pub tmp_id : ℕ → String
unfolding decimal
tmp_id id = "_tmp" ++ decimal id

unfoldable pub to_fn_id : ℕ → String
unfolding decimal
to_fn_id id = "_fn" ++ decimal id
