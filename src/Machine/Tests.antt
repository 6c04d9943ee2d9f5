-- ===== src/Machine/Tests.antt =====
-- Stores, fetches and steps of smpli/src/executor.rs on small programs.
use smpl_mirror.Common.{◌≡◌, ◌≢◌, refl, [], ◌∷◌, some, str_eq, eq_iff, false, arith, lookup, insert}
use smpl_mirror.Common.Int.{pos, as_usize}
use smpl_mirror.ByteCode.{Location, compound, field}
use smpl_mirror.Machine.Value.{
  Value, int, array, struct, empty, item, end, entry, Struct, get_field, set_field, set_at,
}
use smpl_mirror.Machine.Value
use smpl_mirror.Machine.Env.{Env, get_value, get_tmp, write}
use smpl_mirror.Machine.Env
use smpl_mirror.Machine.Place.{fetch, store}
use smpl_mirror.Machine.Place.Laws.{fetch-store, store-total, store-frame, root_of}
use smpl_mirror.Common.{ℕ, List, Option, none, ok, true, lookup_id, ◌<◌, ◌^◌, ◌-◌}
use smpl_mirror.Common.Int.{negsuc, ◌+ℤ◌}
use smpl_mirror.ByteCode.{Instruction, Arg}
use smpl_mirror.Names.{to_fn_id}
use smpl_mirror.Machine.Value.{FnHandle, function}
use smpl_mirror.Machine.Env.{map_value}
use smpl_mirror.Machine.Place.{arg_to_value}
use smpl_mirror.Machine.Sample.{debug}
use smpl_mirror.Machine.Instr.{ExecuteAction, add_ip, execute_instruction}
use smpl_mirror.Machine.Executor
use smpl_mirror.Machine.Executor.{
  Metadata, Executor, StackInfo, ByteCodeStack, byte_code_stack, contains, bind_args,
  create_stack_info, next_ip, frame_step, top_step, act, step, execute,
}
use smpl_mirror.Common.Int.{ℤ, quot, ◌*ℤ◌}
use smpl_mirror.Machine.Arith.Division.{IsRemainder}
use smpl_mirror.Machine.Instr.{store_next}
use smpl_mirror.Machine.Instr.Division.{div_i-mod_i}
use smpl_mirror.Common.Int.{in_i64}
use smpl_mirror.Machine.Executor.Invariant.{
  IsWellFormed, Follows, new-IsWellFormed, step-IsWellFormed,
}
use smpl_mirror.Machine.Executor.Pointer.{next_ip-exact, next_ip-total}

-- a[i].f
abbrev cell : Location
cell = compound "a" (some "i") (field "f" ∷ [])

abbrev holding : Value → Env
holding v = record {
  env =
      ("i", int (pos 1))
      ∷ ("a", array (item (int (pos 9)) (item (struct (entry "f" v end)) empty)))
      ∷ [];
  tmp_store = ("_tmp0", int (pos 4)) ∷ [];
}

abbrev target : Location
target = Location.tmp "_tmp0"

divisor : arg_to_value (holding (int (pos 2))) (Arg.location cell) ≡ some (int (pos 2))
unfolding arg_to_value fetch lookup get_field Value.get Env.get as_usize
divisor = refl

dividend : arg_to_value (holding (int (pos 2))) (Arg.int (negsuc 6)) ≡ some (int (negsuc 6))
unfolding arg_to_value
dividend = refl

stored : store (holding (int (pos 5))) cell (int (pos 6)) ≡ some (holding (int (pos 6)))
unfolding store lookup insert get_field set_field set_at Value.get Env.get write as_usize
stored = refl

was : fetch (holding (int (pos 5))) cell ≡ some (int (pos 5))
unfolding fetch lookup get_field Value.get Env.get as_usize
was = refl

fetch-store_example : fetch (holding (int (pos 6))) cell ≡ some (int (pos 6))
fetch-store_example =
    fetch-store (holding (int (pos 5))) (holding (int (pos 6))) cell (int (pos 6)) stored

store-total_example : (e' : Env) × (store (holding (int (pos 5))) cell (int (pos 8)) ≡ some e')
store-total_example = store-total (holding (int (pos 5))) cell (int (pos 8)) was

other : root_of cell ≢ "_tmp0"
other = λ e. let no : str_eq "a" "_tmp0" ≡ false = refl in ground (arith, eq_iff "a" "_tmp0", no, e)

store-frame_example :
    (get_value "_tmp0" (holding (int (pos 6))) ≡ get_value "_tmp0" (holding (int (pos 5))))
    × (get_tmp "_tmp0" (holding (int (pos 6))) ≡ get_tmp "_tmp0" (holding (int (pos 5))))
store-frame_example =
    store-frame (holding (int (pos 5))) (holding (int (pos 6))) cell (int (pos 6)) "_tmp0" stored
      other

abbrev give_three : Instruction
give_three = Instruction.return (some (Arg.int (pos 3)))

abbrev metadata : Metadata
metadata = record { builtin = []; fn_param_ids = (4, []) ∷ [] }

abbrev compiled : List (ℕ × List Instruction)
compiled = (4, give_three ∷ []) ∷ []

abbrev handle : FnHandle
handle = record { mod_id = 0; fn_id = 4 }

abbrev fn4 : Env
fn4 = record { env = ("_fn4", function handle) ∷ []; tmp_store = [] }

abbrev first : ByteCodeStack
first = record { handle = handle; current_fn = give_three ∷ []; env = fn4; instruction_pointer = 0 }

abbrev started : Executor
started = record {
  metadata = metadata;
  top = byte_code_stack first;
  stack = [];
  compiled = compiled;
  builtins = [];
  return_register = none;
  module_env = fn4;
  finished = false;
}

abbrev ended : Executor
ended = record started { return_register = some (int (pos 3)); finished = true }

starts : Executor.new metadata handle compiled [] [] ≡ ok started
unfolding Executor.new Executor.map_handles map_value insert to_fn_id contains bind_args lookup_id
    create_stack_info
starts = refl

started-IsWellFormed : IsWellFormed started
started-IsWellFormed = new-IsWellFormed metadata handle compiled [] [] starts

steps_once : step debug started ≡ ok ended
unfolding step top_step frame_step act execute_instruction arg_to_value
steps_once = refl

step-IsWellFormed_example :
    IsWellFormed ended
    × ((action : ExecuteAction) × (top : StackInfo) × (reg : Option Value) × (top_step debug
            started.top none
          ≡ ok (action, top, reg))
        × Follows [] top reg action ended)
step-IsWellFormed_example = step-IsWellFormed debug started refl started-IsWellFormed steps_once

executes : execute 1 debug started ≡ some (ok (int (pos 3)))
unfolding execute step top_step frame_step act execute_instruction arg_to_value
executes = refl

jumps_back : next_ip debug (add_ip (negsuc 2)) 5 ≡ ok 2
unfolding next_ip
jumps_back = refl

next_ip-exact_example : (2 < 2 ^ 64) × (pos 2 ≡ pos 5 +ℤ negsuc 2)
next_ip-exact_example = next_ip-exact debug (negsuc 2) 5 2 (omega arith) jumps_back

not_least : negsuc 2 ≢ negsuc (2 ^ 63 - 1)
not_least = λ e. grind (arith, e)

sum_is_two : pos 2 ≡ pos 5 +ℤ negsuc 2
unfolding ◌+ℤ◌
sum_is_two = refl

next_ip-total_example : next_ip debug (add_ip (negsuc 2)) 5 ≡ ok 2
next_ip-total_example = next_ip-total debug (negsuc 2) 5 2 not_least (omega arith) sum_is_two

quotient_in_range : in_i64 (quot (negsuc 6) (pos 2)) ≡ true
unfolding quot
quotient_in_range = refl

-- -7 and 2, the second of which stands at a[1].
div_i-mod_i_example :
    (q : ℤ) × (r : ℤ) × (execute_instruction debug
        (Instruction.div_i target (Arg.int (negsuc 6)) (Arg.location cell))
        0
        (holding (int (pos 2)))
        none
      ≡ store_next target (int q) (holding (int (pos 2))) none)
    × (execute_instruction debug
          (Instruction.mod_i cell (Arg.int (negsuc 6)) (Arg.location cell))
          0
          (holding (int (pos 2)))
          none
        ≡ store_next cell (int r) (holding (int (pos 2))) none)
    × (q *ℤ pos 2 +ℤ r ≡ negsuc 6)
    × IsRemainder (negsuc 6) (pos 2) r
div_i-mod_i_example =
    div_i-mod_i debug target cell (Arg.int (negsuc 6)) (Arg.location cell) 0 (holding (int (pos 2)))
      none dividend divisor (λ e. grind (arith, e)) quotient_in_range
