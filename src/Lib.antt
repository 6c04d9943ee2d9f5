-- ===== src/Lib.antt =====
-- SMPL: the byte code generator of the compiler and the virtual machine of the interpreter.
--
-- The expressions of the syntax are flattened: each becomes a list of temporaries in their order
-- of execution, with its anonymous functions put aside. A checked function reaches the generator
-- as a control flow graph with such expressions in it. The first pass of
-- smpl/src/code_gen/byte_gen turns it into straight code with marks for loops and branches, whose
-- conditions and bodies are kept in frames. The second pass puts the frames in line with relative
-- jumps, and the third pass turns `continue` and `break` into jumps. The executor of smpli/src
-- runs the result: it keeps a stack of frames, each with an environment of named values and
-- temporaries, and a register for the value that the last function has returned. Builtins are
-- functions on values that the executor calls in frames of their own.
--
--   Ast               smpl/src/ast.rs: expressions and statements
--   TypedAst          smpl/src/analysis/typed_ast.rs: temporaries and paths
--   ExprFlow          smpl/src/analysis/expr_flow.rs: flatten, flatten_expr, and anon_storage.rs;
--                     ExprFlow/Storage, Temps, Steps and Total for its theorems
--   ControlFlow       smpl/src/analysis/control_flow.rs: CFG::next, after_conditional and the other
--                     queries; control_data.rs: nodes and edges
--   ControlFlow/Petgraph, ControlFlow/Generate
--                     what is used of the petgraph crate, and control_flow.rs: CFG::generate, in
--                     which an edge to a node that is not there panics
--   ControlFlow/Listed
--                     a graph for the tests
--   ControlFlow/Errors, ControlFlow/Bounds, ControlFlow/Checked
--                     the errors of the generation, and the nodes that its edges join
--   Drawing           the structured code of a block, with the ids of control_flow.rs
--   Drawing/Graphs, Fragment, Tails, Scopes, Wrapping, Looping, Branching, Opening
--                     the parts of a graph that hold such code, as edges are added
--   Drawing/Steps, Stacking, Cursors, Statements, Plain, Blocks
--                     control_flow.rs: generate_scoped_block against the structured code
--   Drawing/Whole, Entry
--                     control_flow.rs: generate against the structured code of the body
--   Drawing/Compiled  generate and then compile_to_byte_code
--   Traversal         smpl/src/analysis/linear_cfg_traversal.rs: Passenger, visit_node, traverse
--   ByteCode          smpl/src/code_gen/byte_gen/byte_code.rs: instructions and their operands
--   Names             byte_expr.rs: the names of temporaries and functions
--   ByteGen/ByteExpr  byte_expr.rs: translate_expr, translate_tmp
--   ByteGen/FirstPass first_pass.rs: FirstPass and its methods, the calls of a traversal
--   ByteGen/FirstPass/Tree
--                     structured code, the calls that its traversal makes, and its code
--   ByteGen/FirstPass/Ids, Frames, Built, Looping, Branching, Builds
--                     the first pass on the calls of a tree
--   ByteGen/FirstPass/Plain, Met, Whole
--                     all three passes on trees without jumps
--   ByteGen/FirstPass/Doing, Executing
--                     what a tree does, and its code under the executor
--   ByteGen/FirstPass/Riding, Visits, Traversed, Entry
--                     the first pass as a passenger, and compile_to_byte_code in mod.rs on graphs
--   ByteGen/Partial   first_pass.rs: frames and marks (LoopFrame, BranchFrame)
--   ByteGen/SecondPass, ByteGen/ThirdPass, ByteGen/Compile
--                     second_pass.rs, third_pass.rs, and the end of compile_to_byte_code
--   ByteGen/Meaning   what a tree of frames means, with no reference to addresses
--   ByteGen/Correct   compiled code against the meaning of its tree
--   Machine/Value, Machine/Env
--                     smpli/src/value.rs and smpli/src/env.rs
--   Machine/Place     smpli/src/executor.rs: fetch, store, arg_to_value
--   Machine/Arith, Machine/Instr
--                     executor.rs: execute_instruction, its macros and its integer operators
--   Machine/Executor  executor.rs: new, create_stack_info, step, execute
--   Machine/Executor/Invariant, Machine/Executor/Pointer
--                     what steps keep and do, relative jumps
--   Machine/Arith/Division, Machine/Instr/Division
--                     division and remainder, and the instructions that compute them
--   Machine/Errors    smpli/src/err.rs and the errors of the builtins
--   Builtins/Vec, Builtins/OptionValue
--                     smpli/src/builtins/vec.rs and smpli/src/builtins/option.rs
--   Common            results, association lists, options, signed integers
--
-- Results. `Outcome` is a Rust result with a third case, `panic`, for unwrap, expect, panic!,
-- unimplemented! and arithmetic that overflows. Maps are association lists. The iteration order
-- of a HashMap matters nowhere, since different keys are written.
--
-- Values. Each ReferableValue is a shared cell in the source, but every read of one into another
-- place is a deep copy, so that a value is a tree here and a write through a reference is a write
-- at a place in the tree. Integers are i64 with wrap-around or a panic, by the `overflow_checks`
-- of the build, and usize has 64 bits. Floats are a parameter, the record `Float` of operations
-- on bit patterns; nothing is assumed about them.
--
-- The graph. What the petgraph crate answers of a graph is a record of functions; the outgoing
-- neighbors of a node are the targets of its outgoing edges, in one order. Structured code is a
-- tree of statements, loops and branches. `Laid` says which graphs hold it: those in which a node
-- leads to the next, a loop is entered on true and left through its foot, the paths of a branch
-- end in its merge node, and the number of nodes is enough for the turns of each `for` loop. The
-- ids of loops and branches are those that a counter gives, as in LocalData
-- (analysis_context.rs). `perform` makes the calls for a tree in the order of the traversal, the
-- path of a branch that is taken on true first.
--
-- The generation of a graph changes a graph of the petgraph crate, which is a parameter: the record
-- `Petgraph` of its operations, with what the crate documents of them. In which order the crate
-- lists the edges of a node is left open. `draw` makes the structured code of a block, by
-- recursion on its statements, with the same flattened expressions and the same counter of ids. A
-- block with a `break` is not drawn, since its graph is none that the traversal can walk.
--
-- Fuel. The recursion of `flatten` goes through maps of frames, and takes fuel; fuel for the
-- depth of the frames is enough. visit_node calls itself for what stands in loops and branches,
-- and takes fuel for their depth; a visit without fuel panics. `execute` takes a number of steps
-- and answers none if the program has not finished; the theorems on it give a number that is
-- enough.
--
-- Counters of ids are natural numbers, where the source counts in u64. The largest number of nodes
-- that the crate takes, 2^32 - 1, is left out.
--
-- Not modelled: the parser, the rest of the static analysis (names, types, the
-- check that a function returns), printing, spans, the loading of modules, and the other builtins.
pub mod Ast
pub mod Builtins
pub mod ByteCode
pub mod ByteGen
pub mod Common
pub mod ControlFlow
pub mod Drawing
pub mod ExprFlow
pub mod Machine
pub mod Names
pub mod Traversal
pub mod TypedAst
