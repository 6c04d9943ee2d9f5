-- ===== src/Machine/Place.antt =====
-- smpli/src/executor.rs, `fetch`, `store` and `arg_to_value`. Each of them panics where an
-- `unwrap`, an `expect` or an `unimplemented!` is met; `none` stands for that.
pub mod Laws
use smpl_mirror.Common.{ℕ, String, List, [], ◌∷◌, Option, none, some, Bool, lookup, insert}
use smpl_mirror.Common.Options.{◌>>=◌}
use smpl_mirror.Common.Int.{as_usize}
use smpl_mirror.ByteCode
use smpl_mirror.ByteCode.{FieldAccess, field, field_index, Location, compound, namespace, tmp, Arg}
use smpl_mirror.Machine.Value.{
  Value, int, float, bool, string, array, struct, set_at, set_field, get_field,
}
use smpl_mirror.Machine.Value
use smpl_mirror.Machine.Env.{Env, map_value, map_tmp, get_value, get_tmp, write}
use smpl_mirror.Machine.Env

-- One step from a cell to a cell in it.
pub data Step : Type 0 where
  at_field : String → Step
  at_index : ℕ → Step

-- The value of an index variable, `i as usize`; anything but an integer is `unimplemented!`.
abbrev pub index_value : Value → Option ℕ
index_value (int i) = some (as_usize i)
index_value _ = none

unfoldable pub index_of : Env → String → Option ℕ
index_of e n = Env.get n e >>= index_value

unfoldable pub steps : Env → List FieldAccess → Option (List Step)
steps e [] = some []
steps e (field f ∷ path) = do ss ← steps e path; some (at_field f ∷ ss)
steps e (field_index f i ∷ path) = do
  k ← index_of e i
  ss ← steps e path
  some (at_field f ∷ at_index k ∷ ss)

-- The steps from the root cell: the root's own index first.
unfoldable pub place : Env → Option String → List FieldAccess → Option (List Step)
unfolding index_of steps
place e none path = steps e path
place e (some i) path = do k ← index_of e i; ss ← steps e path; some (at_index k ∷ ss)

abbrev pub child : Step → Value → Option Value
child (at_field f) (struct s) = get_field f s
child (at_field f) _ = none
child (at_index k) (array a) = Value.get k a
child (at_index k) _ = none

abbrev pub replace_child : Step → Value → Value → Option Value
replace_child (at_field f) x (struct s) = some (struct (set_field f x s))
replace_child (at_field f) x _ = none
replace_child (at_index k) x (array a) = do b ← set_at k x a; some (array b)
replace_child (at_index k) x _ = none

unfoldable pub walk : List Step → Value → Option Value
walk [] v = some v
walk (s ∷ ss) v = do w ← child s v; walk ss w

-- The root value after a write of `x` to the cell at the end of the steps.
unfoldable pub rewrite : List Step → Value → Value → Option Value
rewrite [] x v = some x
rewrite (s ∷ ss) x v = do w ← child s v; w' ← rewrite ss x w; replace_child s w' v

unfoldable pub fetch : Env → Location → Option Value
unfolding place walk
fetch e (compound root index path) = do r ← Env.get root e; ss ← place e index path; walk ss r
fetch e (namespace n) = get_value n e
fetch e (tmp n) = get_tmp n e

unfoldable pub store : Env → Location → Value → Option Env
unfolding place rewrite
store e (compound root index path) v = do
  r ← Env.get root e
  ss ← place e index path
  r' ← rewrite ss v r
  some (write root r' e)
store e (namespace n) v = some (map_value n v e).0
store e (tmp n) v = some (map_tmp n v e).0

-- `clone_value` of what `fetch` gives, which is the same tree.
unfoldable pub arg_to_value : Env → Arg → Option Value
unfolding fetch
arg_to_value e (Arg.location l) = fetch e l
arg_to_value e (Arg.int i) = some (int i)
arg_to_value e (Arg.float f) = some (float f)
arg_to_value e (Arg.bool b) = some (bool b)
arg_to_value e (Arg.string s) = some (string s)
