-- ===== src/ByteGen/FirstPass/Tests.antt =====
-- Structured code through the passes and under the executor, and the theorems at it.
use smpl_mirror.Common.{
  ℕ, String, ◌≡◌, refl, List, [], ◌∷◌, none, some, true, false, ok, arith, lookup, insert,
  lookup_id, insert_id,
}
use smpl_mirror.Common.Int.{pos, negsuc}
use smpl_mirror.ByteCode.{Arg, Location, Instruction, rel_jump_target}
use smpl_mirror.Ast
use smpl_mirror.Names.{tmp_id, decimal_fuel}
use smpl_mirror.TypedAst.{Expr, last_of, expr_of, tmp, no_tmps}
use smpl_mirror.TypedAst
use smpl_mirror.Machine.Value.{FnHandle, int}
use smpl_mirror.Machine.Env.{Env}
use smpl_mirror.Machine.Env
use smpl_mirror.Machine.Place
use smpl_mirror.Machine.Sample.{debug}
use smpl_mirror.Machine.Instr.{execute_instruction, bool_from_arg}
use smpl_mirror.Machine.Executor.{
  ByteCodeStack, byte_code_stack, create_stack_info, execute, contains, bind_args,
}
use smpl_mirror.ByteGen.ByteExpr.{translate_expr, collect}
use smpl_mirror.ByteGen.Partial.{PartialInstruction}
use smpl_mirror.ByteGen.SecondPass.{SecondPass}
use smpl_mirror.ByteGen.Compile.{ByteCodeFunction, compile_passes, new_pre_validated}
use smpl_mirror.ByteGen.Meaning.{returned}
use smpl_mirror.ByteGen.Correct.Program.{Program, running, Calls}
use smpl_mirror.ControlFlow.{
  next, after_conditional, branches_of, after_loop_foot, first_other, after_return, Cfg, Node, Edge,
  on_true, on_false, normal, back_edge,
}
use smpl_mirror.ControlFlow
use smpl_mirror.Traversal.{traverse, walk_until, visit_node, visit_with, visit_block}
use smpl_mirror.Common.{inl, inr, get_elem?}
use smpl_mirror.ByteGen.FirstPass.Riding.{Laid}
use smpl_mirror.ByteGen.FirstPass.Entry.{
  compile-first_pass, Holds, compile_to_byte_code, compile_to_byte_code-total,
  execute-compile_to_byte_code,
}
use smpl_mirror.ByteGen.FirstPass.{
  value_of, on_start, on_end, loop_head, loop_foot, local_var_decl, ret, branch_split, branch_merge,
  branch_start_path, branch_end_path, extend_current_frame,
}
use smpl_mirror.ByteGen.FirstPass.Tree.{
  Tree, perform, first_pass, simple_code, decl, return_stmt, Ready, Builds,
}
use smpl_mirror.ByteGen.FirstPass.Builds.{first_pass-Builds}
use smpl_mirror.ByteGen.FirstPass.Whole.{NoJumps, marks}
use smpl_mirror.ByteGen.FirstPass.Doing.{Line, Does}

abbrev lit : ℕ → Ast.Literal → Expr
lit id l = expr_of (tmp id (TypedAst.literal l) no_tmps) (id ∷ [])

abbrev x : Expr
x = expr_of (tmp 3 (TypedAst.binding "x" (some (TypedAst.var 9))) no_tmps) (3 ∷ [])

-- let x = 7; while (false) { } if (true) { return x; }
abbrev tree : Tree
tree = Tree.simple (decl "x" (lit 0 (Ast.int (pos 7)))) (
    Tree.loop 5 (lit 1 (Ast.bool false)) Tree.done (
      Tree.branch 6 (lit 2 (Ast.bool true)) (Tree.simple (return_stmt (some x)) Tree.done) Tree.done
        Tree.done))

abbrev instr : Instruction → PartialInstruction
instr i = PartialInstruction.instruction i

abbrev tmp_of : String → Arg
tmp_of s = Arg.location (Location.tmp s)

tree-Ready : Ready [] 0 7 tree
unfolding simple_code value_of translate_expr collect last_of lookup_id tmp_id decimal_fuel
tree-Ready = Ready.simple refl (
    Ready.loop (omega arith) refl (Ready.done {hi = 6} (omega arith)) (
      Ready.branch refl (Ready.simple refl (Ready.done {hi = 6} (omega arith))) (omega arith)
        (Ready.done {hi = 7} (omega arith)) (Ready.done (omega arith))))

first_pass-Builds_example :
    (sp : SecondPass) × (first_pass [] tree ≡ some sp) × Builds [] sp tree sp.main_body
first_pass-Builds_example = first_pass-Builds [] tree-Ready

tree-NoJumps : NoJumps tree
unfolding NoJumps
tree-NoJumps = (tt, (tt, ((tt, tt), tt, tt)))

abbrev sample : SecondPass
sample = record {
  main_body =
      instr (Instruction.store (Location.tmp "_tmp0") (Arg.int (pos 7)))
      ∷ instr (Instruction.store (Location.namespace "x") (tmp_of "_tmp0"))
      ∷ PartialInstruction.loop_mark 5
      ∷ PartialInstruction.branch_mark 6
      ∷ [];
  loops =
      (
        5,
        record {
          result_location = some (tmp_of "_tmp1");
          condition = some (instr (Instruction.store (Location.tmp "_tmp1") (Arg.bool false)) ∷ []);
          body = some [];
        },
      )
      ∷ [];
  branches =
      (
        6,
        record {
          result_location = some (tmp_of "_tmp2");
          condition = some (instr (Instruction.store (Location.tmp "_tmp2") (Arg.bool true)) ∷ []);
          true_branch = some (
              instr
                (Instruction.store (Location.tmp "_tmp3") (Arg.location (Location.namespace "x")))
              ∷ instr (Instruction.return (some (tmp_of "_tmp3")))
              ∷ []);
          false_branch = some [];
        },
      )
      ∷ [];
}

sample_passes : first_pass [] tree ≡ some sample
unfolding first_pass perform on_start on_end loop_head loop_foot local_var_decl ret branch_split
    branch_merge branch_start_path branch_end_path extend_current_frame value_of translate_expr
    collect last_of lookup_id tmp_id decimal_fuel insert_id
sample_passes = refl

abbrev code : List Instruction
code =
    Instruction.store (Location.tmp "_tmp0") (Arg.int (pos 7))
    ∷ Instruction.store (Location.namespace "x") (tmp_of "_tmp0")
    ∷ Instruction.store (Location.tmp "_tmp1") (Arg.bool false)
    ∷ Instruction.rel_jump_negate_condition (rel_jump_target (pos 2)) (tmp_of "_tmp1")
    ∷ Instruction.rel_jump (rel_jump_target (negsuc 1))
    ∷ Instruction.store (Location.tmp "_tmp2") (Arg.bool true)
    ∷ Instruction.rel_jump_condition (rel_jump_target (pos 2)) (tmp_of "_tmp2")
    ∷ Instruction.rel_jump (rel_jump_target (pos 3))
    ∷ Instruction.store (Location.tmp "_tmp3") (Arg.location (Location.namespace "x"))
    ∷ Instruction.return (some (tmp_of "_tmp3"))
    ∷ []

sample_compiles : compile_passes 2 sample ≡ ok (new_pre_validated code)
unfolding compile_passes lookup_id insert_id
sample_compiles = refl

abbrev main : FnHandle
main = record { mod_id = 0; fn_id = 4 }

abbrev program : Program
program = record {
  metadata = record { builtin = []; fn_param_ids = (4, []) ∷ [] };
  compiled = (4, code) ∷ [];
  builtins = [];
  module_env = Env.new;
}

abbrev frame : ByteCodeStack
frame = record { handle = main; current_fn = code; env = Env.new; instruction_pointer = 0 }

sample_frame :
    create_stack_info program.metadata program.compiled program.builtins program.module_env main []
    ≡ ok (byte_code_stack frame)
unfolding create_stack_info contains bind_args lookup_id
sample_frame = refl

sample_known : lookup_id 4 program.compiled ≡ some code
unfolding lookup_id
sample_known = refl

tree_returns : Does debug (Calls debug program 0) [] tree (Env.new, none) (returned (int (pos 7)))
unfolding execute_instruction bool_from_arg lookup insert lookup_id Place.arg_to_value Place.store
    Env.get_value Env.map_value Env.get_tmp Env.map_tmp simple_code value_of translate_expr collect
    last_of tmp_id decimal_fuel
tree_returns = Does.simple refl (Line.plain (λ ip. refl) (Line.plain (λ ip. refl) Line.done)) (
    Does.loop_exit
      (record {
        code = _;
        result = _;
        translates = refl;
        computes = Line.plain (λ ip. refl) Line.done;
        tests = λ i. refl;
      })
      (Does.branch_return true
        (record {
          code = _;
          result = _;
          translates = refl;
          computes = Line.plain (λ ip. refl) Line.done;
          tests = λ i. refl;
        })
        (Does.simple_return refl (Line.plain (λ ip. refl) (Line.return (λ ip. refl))))))

abbrev nodes : List Node
nodes =
    Node.start
    ∷ Node.block (ControlFlow.local_var_decl "x" (lit 0 (Ast.int (pos 7))) ∷ [])
    ∷ Node.loop_head 5 (lit 1 (Ast.bool false))
    ∷ Node.loop_foot 5
    ∷ Node.branch_split 6 (lit 2 (Ast.bool true))
    ∷ Node.return (some x)
    ∷ Node.branch_merge 6
    ∷ Node.end
    ∷ Node.break 5
    ∷ []

abbrev edge_lists : List (List (Edge × ℕ))
edge_lists =
    ((normal, 1) ∷ [])
    ∷ ((normal, 2) ∷ [])
    ∷ ((on_true, 3) ∷ (on_false, 3) ∷ [])
    ∷ ((normal, 4) ∷ (back_edge, 2) ∷ [])
    ∷ ((on_false, 6) ∷ (on_true, 5) ∷ [])
    ∷ ((normal, 6) ∷ [])
    ∷ ((normal, 7) ∷ [])
    ∷ []
    ∷ ((normal, 3) ∷ [])
    ∷ []

-- The last node of the list has no edge to it.
abbrev graph : Cfg
graph = record {
  weight = λ n. get_elem? nodes n;
  edges = λ n. elim (get_elem? edge_lists n) [ none ↦ [] | some es ↦ es ];
  node_count = 9;
  start_node = 0;
}

graph-Holds : Holds graph tree
graph-Holds = record {
  first = 1;
  last = 7;
  visits = 3;
  edge = normal;
  starts = refl;
  leads = refl;
  laid = Laid.block {bs = ControlFlow.local_var_decl "x" (lit 0 (Ast.int (pos 7))) ∷ []} refl refl (
      Laid.loop refl (inl refl) Laid.done (omega arith) refl (inr refl) refl refl (
        Laid.branch refl (inr refl) (Laid.return refl refl Laid.done) (omega arith) Laid.done
          (omega arith) refl refl Laid.done));
  ends = refl;
  room = omega arith;
}

graph_compiles : compile_to_byte_code 3 [] graph ≡ ok (new_pre_validated code)
unfolding compile_to_byte_code traverse walk_until visit_node visit_with visit_block next
    after_conditional branches_of after_loop_foot first_other after_return compile_passes on_start
    on_end loop_head loop_foot local_var_decl ret branch_split branch_merge branch_start_path
    branch_end_path extend_current_frame value_of translate_expr collect last_of lookup_id tmp_id
    decimal_fuel insert_id
graph_compiles = refl

compile-first_pass_example : compile_to_byte_code 3 [] graph ≡ compile_passes 3 sample
compile-first_pass_example =
    compile-first_pass graph [] graph-Holds 2 sample (unfold marks in omega arith) sample_passes

compile_to_byte_code-total_example :
    (f : ByteCodeFunction) × (compile_to_byte_code 3 [] graph ≡ ok f)
compile_to_byte_code-total_example =
    compile_to_byte_code-total 2 [] graph graph-Holds tree-Ready tree-NoJumps
      (unfold marks in omega arith)

execute-compile_to_byte_code_example :
    (steps : ℕ) × (execute steps debug (running program (byte_code_stack frame) [] none)
      ≡ some (ok (int (pos 7))))
execute-compile_to_byte_code_example =
    execute-compile_to_byte_code 2 [] graph debug program 0 (new_pre_validated code) main [] frame
      (int (pos 7)) graph-Holds tree-Ready (unfold marks in omega arith) graph_compiles sample_known
      (omega arith) sample_frame tree_returns
