-- ===== src/ByteGen/Tests.antt =====
-- Runs of the passes and of their code, and the theorems at these runs.
use smpl_mirror.Common.{
  ℕ, ◌+◌, ◌≡◌, refl, List, [], ◌∷◌, ◌++◌, Option, none, some, Bool, true, false, ok, arith, lookup,
  insert, lookup_id, insert_id, get_elem?,
}
use smpl_mirror.Common.Int.{pos, negsuc, ◌-ℤ◌}
use smpl_mirror.ByteCode.{Arg, Location, Instruction, rel_jump_target}
use smpl_mirror.Machine.Value.{FnHandle, int, bool}
use smpl_mirror.Machine.Env.{Env}
use smpl_mirror.Machine.Env
use smpl_mirror.Machine.Place
use smpl_mirror.Machine.Arith
use smpl_mirror.Machine.Sample.{debug}
use smpl_mirror.Machine.Instr.{execute_instruction, bool_from_arg}
use smpl_mirror.Machine.Executor.{
  ByteCodeStack, byte_code_stack, create_stack_info, execute, step, contains, bind_args,
}
use smpl_mirror.ByteGen.Partial.{PartialInstruction, LoopFrame, Flat}
use smpl_mirror.ByteGen.SecondPass.{SecondPass, flatten, flattened_len}
use smpl_mirror.ByteGen.ThirdPass
use smpl_mirror.ByteGen.Compile.{ByteCodeFunction, compile_passes, new_pre_validated}
use smpl_mirror.ByteGen.Meaning.{State, returned, Run, Reaches}
use smpl_mirror.ByteGen.SecondPass.Total.{Nests, flatten_total}
use smpl_mirror.ByteGen.Correct.Total.{Structured, compile_total}
use smpl_mirror.ByteGen.ThirdPass.Total.{Marked, pass-Marked}
use smpl_mirror.ByteGen.ThirdPass.Jumps.{pass-break, pass-continue}
use smpl_mirror.ByteGen.Correct.Whole.{compile-Reaches}
use smpl_mirror.ByteGen.Correct.Program.{Program, running, Calls}
use smpl_mirror.ByteGen.Correct.Execute.{execute-compiled}

abbrev x : Location
x = Location.namespace "x"

abbrev test : Location
test = Location.tmp "_tmp0"

abbrev start_x : Instruction
start_x = Instruction.store x (Arg.int (pos 1))

abbrev positive : Instruction
positive = Instruction.ge_i test (Arg.location x) (Arg.int (pos 0))

abbrev count_down : Instruction
count_down = Instruction.sub_i x (Arg.location x) (Arg.int (pos 1))

abbrev give_x : Instruction
give_x = Instruction.return (some (Arg.location x))

abbrev counting : LoopFrame
counting = record {
  result_location = some (Arg.location test);
  condition = some (PartialInstruction.instruction positive ∷ []);
  body = some (PartialInstruction.instruction count_down ∷ []);
}

-- let x = 1; while (x > 0) { x = x - 1; } return x;
abbrev sample : SecondPass
sample = record {
  main_body =
      PartialInstruction.instruction start_x
      ∷ PartialInstruction.loop_mark 7
      ∷ PartialInstruction.instruction give_x
      ∷ [];
  loops = (7, counting) ∷ [];
  branches = [];
}

abbrev code : List Instruction
code =
    start_x
    ∷ positive
    ∷ Instruction.rel_jump_negate_condition (rel_jump_target (pos 3)) (Arg.location test)
    ∷ count_down
    ∷ Instruction.rel_jump (rel_jump_target (negsuc 2))
    ∷ give_x
    ∷ []

sample_compiles : compile_passes 1 sample ≡ ok (new_pre_validated code)
unfolding compile_passes lookup_id insert_id
sample_compiles = refl

abbrev main : FnHandle
main = record { mod_id = 0; fn_id = 4 }

abbrev program : Program
program = record {
  metadata = record { builtin = []; fn_param_ids = (4, []) ∷ [] };
  compiled = (4, code) ∷ [];
  builtins = [];
  module_env = Env.new;
}

abbrev frame : ByteCodeStack
frame = record { handle = main; current_fn = code; env = Env.new; instruction_pointer = 0 }

abbrev state : Option ℕ → Option Bool → State
state n b = (
  record {
    env = elim n [ none ↦ [] | some k ↦ ("x", int (pos k)) ∷ [] ];
    tmp_store = elim b [ none ↦ [] | some c ↦ ("_tmp0", bool c) ∷ [] ];
  },
  none,
)

sample_runs :
    Run debug
      (Calls debug program 0)
      sample
      sample.main_body
      (Env.new, none)
      (returned (int (pos 0)))
unfolding execute_instruction bool_from_arg lookup insert lookup_id ◌-ℤ◌ Place.arg_to_value
    Place.store Env.get_value Env.map_value Env.get_tmp Env.map_tmp Arith.sub
sample_runs =
    Run.plain {s' = state (some 1) none} (λ ip. refl)
      (Run.loop_again {s₁ = state (some 1) (some true)} {s₂ = state (some 0) (some true)} refl
        (Run.plain {s' = state (some 1) (some true)} (λ ip. refl) Run.done) (λ i. refl)
        (Run.plain {s' = state (some 0) (some true)} (λ ip. refl) Run.done)
        (Run.loop_exit {s₁ = state (some 0) (some false)} refl
          (Run.plain {s' = state (some 0) (some false)} (λ ip. refl) Run.done) (λ i. refl)
          (Run.return {s' = state (some 0) (some false)} (λ ip. refl))))

compile-Reaches_example :
    Reaches debug (Calls debug program 0) frame 0 (Env.new, none) 6 (returned (int (pos 0)))
compile-Reaches_example =
    compile-Reaches debug (Calls debug program 0) 1 sample (new_pre_validated code) frame
      (Env.new, none) (returned (int (pos 0))) sample_compiles refl (omega arith) sample_runs

sample_frame :
    create_stack_info program.metadata program.compiled program.builtins program.module_env main []
    ≡ ok (byte_code_stack frame)
unfolding create_stack_info contains bind_args lookup_id
sample_frame = refl

sample_known : lookup_id 4 program.compiled ≡ some code
unfolding lookup_id
sample_known = refl

execute-compiled_example :
    (steps : ℕ) × (execute steps debug (running program (byte_code_stack frame) [] none)
      ≡ some (ok (int (pos 0))))
execute-compiled_example =
    execute-compiled debug program 0 1 sample (new_pre_validated code) main [] frame (int (pos 0))
      sample_compiles sample_known (omega arith) sample_frame sample_runs

-- The run itself takes ten steps.
sample_executes :
    execute 11 debug (running program (byte_code_stack frame) [] none) ≡ some (ok (int (pos 0)))
unfolding execute step execute_instruction lookup insert lookup_id ◌-ℤ◌ Place.arg_to_value
    Place.store Env.get_value Env.map_value Env.get_tmp Env.map_tmp Arith.sub
sample_executes = refl

sample-Nests : Nests sample 1 sample.main_body
unfolding lookup_id
sample-Nests = Nests.plain (
    Nests.loop {result = Arg.location test} refl (Nests.plain Nests.done) (Nests.plain Nests.done)
      (Nests.plain Nests.done))

flatten_total_example : (flat : List Flat) × (flatten 3 sample sample.main_body ≡ ok flat)
flatten_total_example = flatten_total sample 1 3 (omega arith) sample-Nests

-- while (..) { break; }
pass-break_example :
    ThirdPass.pass (
      []
      ++ Flat.loop_begin 7
        ∷ (Flat.instruction positive ∷ [] ++ Flat.break 7 ∷ Flat.loop_end 7 ∷ []))
    ≡ none
pass-break_example = pass-break 7 [] (Flat.instruction positive ∷ []) (Flat.loop_end 7 ∷ [])

pass-continue_example :
    get_elem?
      (positive ∷ Instruction.rel_jump (rel_jump_target (pos 2)) ∷ [])
      (flattened_len [] + flattened_len (Flat.instruction positive ∷ []))
    ≡ some (Instruction.rel_jump (rel_jump_target (pos 2)))
unfolding ThirdPass.pass lookup_id insert_id
pass-continue_example =
    pass-continue 7 [] (Flat.instruction positive ∷ []) (Flat.loop_end 7 ∷ [])
      (positive ∷ Instruction.rel_jump (rel_jump_target (pos 2)) ∷ []) refl

-- A loop with one instruction in it.
loop-Marked :
    Marked [] []
      (Flat.loop_begin 7 ∷ Flat.instruction positive ∷ Flat.loop_end 7 ∷ [])
      (positive ∷ [])
loop-Marked = Marked.begin tt (Marked.plain (Marked.end tt Marked.done))

pass-Marked_example :
    ThirdPass.pass (Flat.loop_begin 7 ∷ Flat.instruction positive ∷ Flat.loop_end 7 ∷ [])
    ≡ some (positive ∷ [])
pass-Marked_example = pass-Marked loop-Marked

sample-Structured : Structured sample 1 [] [] sample.main_body (7 ∷ []) (7 ∷ [])
unfolding lookup_id
sample-Structured = Structured.plain (
    Structured.loop {result = Arg.location test} refl tt (Structured.plain Structured.done)
      (Structured.plain Structured.done) tt (Structured.plain Structured.done))

compile_total_example : (f : ByteCodeFunction) × (compile_passes 5 sample ≡ ok f)
compile_total_example = compile_total sample 1 5 (omega arith) sample-Structured
