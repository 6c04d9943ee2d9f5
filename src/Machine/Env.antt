-- ===== src/Machine/Env.antt =====
-- smpli/src/env.rs: the named values and the temporaries of a stack frame.
use smpl_mirror.Common.{String, List, [], Option, none, some, lookup, insert}
use smpl_mirror.Machine.Value.{Value}

pub record Env : Type 0 where
  pub env : List (String × Value)
  pub tmp_store : List (String × Value)

abbrev pub new : Env
new = record { env = []; tmp_store = [] }

-- `hard_clone` of every cell: a tree value is its own deep copy.
abbrev pub fork : Env → Env
fork e = record { env = e.env; tmp_store = e.tmp_store }

unfoldable pub map_value : String → Value → Env → Env × Option Value
map_value n v e = (record e { env = insert n v e.env }, lookup n e.env)

unfoldable pub map_tmp : String → Value → Env → Env × Option Value
map_tmp n v e = (record e { tmp_store = insert n v e.tmp_store }, lookup n e.tmp_store)

-- `get_value` and `ref_value`, `get_tmp` and `ref_tmp`, `get` and `get_ref` read the same cells.
unfoldable pub get_value : String → Env → Option Value
get_value n e = lookup n e.env

unfoldable pub get_tmp : String → Env → Option Value
get_tmp n e = lookup n e.tmp_store

abbrev or_else : Option Value → Option Value → Option Value
or_else none o = o
or_else (some v) o = some v

unfoldable pub get : String → Env → Option Value
unfolding get_value get_tmp
get n e = or_else (get_value n e) (get_tmp n e)

unfoldable pub wipe_tmps : Env → Env
wipe_tmps e = record e { tmp_store = [] }

-- The write through a reference that `get_ref` has given: in the map that holds the name.
unfoldable pub write : String → Value → Env → Env
write n v e = elim (lookup n e.env) [
  | some w ↦ record e { env = insert n v e.env }
  | none ↦ record e { tmp_store = insert n v e.tmp_store }
]
