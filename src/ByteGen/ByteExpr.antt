-- ===== src/ByteGen/ByteExpr.antt =====
-- smpl/src/code_gen/byte_gen/byte_expr.rs: the instructions of an expression. `none` is a panic.
use smpl_mirror.Common.{ℕ, String, List, [], ◌∷◌, ◌++◌, map, Option, none, some, lookup_id, insert}
use smpl_mirror.Common.Options.{◌>>=◌}
use smpl_mirror.Ast.{BinOp, UniOp, Literal}
use smpl_mirror.Ast
use smpl_mirror.TypedAst.{
  BindingId, ArrayInit, Value, Tmps, no_tmps, tmp, Expr, expr_of, FieldPath, path_of, RootIndexing,
  no_index, index_by, Segments, no_segments, last,
}
use smpl_mirror.TypedAst
use smpl_mirror.ByteCode.{FieldAccess, Location, Arg, Instruction}
use smpl_mirror.Names.{tmp_id, to_fn_id}

-- What the generator asks of an `AbstractType`: whether it is `Int`, `Float` or another.
pub data NumberType : Type 0 where
  int float other : NumberType

-- `tmp_type_map` of a `TypingContext`.
abbrev pub TypingContext : Type 0
TypingContext = List (ℕ × NumberType)

abbrev pub Translated : Type 0
Translated = Option (List Instruction)

abbrev pub tmp_location : ℕ → Location
tmp_location id = Location.tmp (tmp_id id)

abbrev pub tmp_arg : ℕ → Arg
tmp_arg id = Arg.location (tmp_location id)

abbrev namespace_arg : String → Arg
namespace_arg x = Arg.location (Location.namespace x)

-- What a temporary is loaded with if its value is one store.
abbrev pub store_one : ℕ → Arg → Translated
store_one id a = some (Instruction.store (tmp_location id) a ∷ [])

abbrev literal_arg : Literal → Arg
literal_arg (Ast.string s) = Arg.string s
literal_arg (Ast.int i) = Arg.int i
literal_arg (Ast.float f) = Arg.float f
literal_arg (Ast.bool b) = Arg.bool b

abbrev binding_name : String → BindingId → String
binding_name x (TypedAst.fn id) = to_fn_id id
binding_name x (TypedAst.var id) = x

-- `specific_math_op!`
abbrev pub BinInstruction : Type 0
BinInstruction = Location → Arg → Arg → Instruction

abbrev specific_math_op : NumberType → BinInstruction → BinInstruction → Option BinInstruction
specific_math_op int i f = some i
specific_math_op float i f = some f
specific_math_op other i f = none

abbrev pub bin_instruction : NumberType → BinOp → Option BinInstruction
bin_instruction ty Ast.add = specific_math_op ty Instruction.add_i Instruction.add_f
bin_instruction ty Ast.sub = specific_math_op ty Instruction.sub_i Instruction.sub_f
bin_instruction ty Ast.mul = specific_math_op ty Instruction.mul_i Instruction.mul_f
bin_instruction ty Ast.div = specific_math_op ty Instruction.div_i Instruction.div_f
bin_instruction ty Ast.modulo = specific_math_op ty Instruction.mod_i Instruction.mod_f
bin_instruction ty Ast.logical_and = some Instruction.and
bin_instruction ty Ast.logical_or = some Instruction.or
bin_instruction ty Ast.greater_eq = specific_math_op ty Instruction.g_eq_i Instruction.g_eq_f
bin_instruction ty Ast.lesser_eq = specific_math_op ty Instruction.l_eq_i Instruction.l_eq_f
bin_instruction ty Ast.greater = specific_math_op ty Instruction.ge_i Instruction.ge_f
bin_instruction ty Ast.lesser = specific_math_op ty Instruction.le_i Instruction.le_f
bin_instruction ty Ast.eq = some Instruction.eq
bin_instruction ty Ast.in_eq = some Instruction.in_eq

abbrev pub uni_instruction : UniOp → Option (Location → Arg → Instruction)
uni_instruction Ast.negate = some Instruction.negate
uni_instruction Ast.logical_invert = some Instruction.invert
uni_instruction _ = none

abbrev args_of : Option (List ℕ) → List Arg
args_of none = []
args_of (some ids) = map tmp_arg ids

-- The `HashMap` of a structure's fields, inserted in turn.
abbrev field_args : List (String × ℕ) → List (String × Arg) → List (String × Arg)
field_args [] m = m
field_args ((x, id) ∷ fields) m = field_args fields (insert x (tmp_arg id) m)

-- The location of a path: compound if it has segments or an index at its root.
abbrev pub path_location : String → Option String → List FieldAccess → Location
path_location root none [] = Location.namespace root
path_location root index path = Location.compound root index path

-- The instructions of each temporary are made once, under its id; `collect` then takes those in
-- the order of execution, as `get_tmp` does.
unfoldable pub collect : List (ℕ × Translated) → List ℕ → Translated
unfolding lookup_id
collect m [] = some []
collect m (id ∷ order) = do
  found ← lookup_id id m
  is ← found
  rest ← collect m order
  some (is ++ rest)

unfoldable mutual
  unfolding collect

  pub translate_expr : TypingContext → Expr → Translated
  translate_expr ty (expr_of tmps order) = collect (translate_tmps ty tmps) order

  pub translate_tmps : TypingContext → Tmps → List (ℕ × Translated)
  translate_tmps ty no_tmps = []
  translate_tmps ty (tmp id v rest) = (id, translate_tmp ty id v) ∷ translate_tmps ty rest

  pub translate_tmp : TypingContext → ℕ → Value → Translated
  translate_tmp ty id (Value.literal lit) = store_one id (literal_arg lit)
  translate_tmp ty id (Value.binding x binding) = do
    b ← binding
    store_one id (namespace_arg (binding_name x b))
  translate_tmp ty id (Value.field_access p) = do
    (code, location) ← translate_path ty p
    some (code ++ Instruction.store (tmp_location id) (Arg.location location) ∷ [])
  translate_tmp ty id (Value.bin_expr op lhs rhs) = do
    t ← lookup_id lhs ty
    instruction ← bin_instruction t op
    some (instruction (tmp_location id) (tmp_arg lhs) (tmp_arg rhs) ∷ [])
  translate_tmp ty id (Value.uni_expr op e) = do
    instruction ← uni_instruction op
    some (instruction (tmp_location id) (tmp_arg e) ∷ [])
  translate_tmp ty id (Value.fn_call f args) = some (
      Instruction.fn_call (tmp_location f) (args_of args)
      ∷ Instruction.take_return (tmp_location id)
      ∷ [])
  translate_tmp ty id (Value.struct_init name fields) =
      some (Instruction.store_structure (tmp_location id) (field_args fields []) ∷ [])
  translate_tmp ty id (Value.anon_struct_init fields) =
      some (Instruction.store_structure (tmp_location id) (field_args fields []) ∷ [])
  translate_tmp ty id (Value.array_init (ArrayInit.list ids)) =
      some (Instruction.store_array1 (tmp_location id) (map tmp_arg ids) ∷ [])
  translate_tmp ty id (Value.array_init (ArrayInit.value v size)) =
      some (Instruction.store_array2 (tmp_location id) (tmp_arg v) size ∷ [])
  translate_tmp ty id (Value.indexing array indexer) =
      store_one id (Arg.location (Location.compound (tmp_id array) (some (tmp_id indexer)) []))
  translate_tmp ty id (Value.mod_access p f) = do fn ← f; store_one id (namespace_arg (to_fn_id fn))
  translate_tmp ty id (Value.anonymous_fn f) = store_one id (namespace_arg (to_fn_id f))
  translate_tmp ty id (Value.type_inst p types f) = do
    fn ← f
    store_one id (namespace_arg (to_fn_id fn))

  -- The code of the indices of a path, the root's first, and the location that it leads to.
  pub translate_path : TypingContext → FieldPath → Option (List Instruction × Location)
  translate_path ty (path_of root index segments) = do
    (root_code, root_index) ← translate_root ty index
    (code, path) ← translate_segments ty segments
    some (root_code ++ code, path_location root root_index path)

  pub translate_root : TypingContext → RootIndexing → Option (List Instruction × Option String)
  translate_root ty no_index = some ([], none)
  translate_root ty (index_by e) = do
    code ← translate_expr ty e
    id ← last e
    some (code, some (tmp_id id))

  pub translate_segments : TypingContext → Segments → Option (List Instruction × List FieldAccess)
  translate_segments ty no_segments = some ([], [])
  translate_segments ty (TypedAst.ident x segments) = do
    (code, path) ← translate_segments ty segments
    some (code, FieldAccess.field x ∷ path)
  translate_segments ty (TypedAst.indexed x e segments) = do
    index_code ← translate_expr ty e
    id ← last e
    (code, path) ← translate_segments ty segments
    some (index_code ++ code, FieldAccess.field_index x (tmp_id id) ∷ path)
