-- ===== src/TypedAst.antt =====
-- smpl/src/analysis/typed_ast.rs: expressions as temporaries in their order of execution. The ids
-- that later passes fill in are kept where the code generator reads them. A `Typed` is its data.
use smpl_mirror.Common.{ℕ, String, List, [], ◌∷◌, ◌++◌, Option, none, some, ◌==◌, if◌then◌else◌}
use smpl_mirror.Ast.{BinOp, UniOp, Literal, TypedPath, Annotations, ModulePath}

-- smpl/src/analysis/semantic_data.rs
pub data BindingId : Type 0 where
  fn var : ℕ → BindingId

pub data ArrayInit : Type 0 where
  list : List ℕ → ArrayInit
  value : ℕ → ℕ → ArrayInit

mutual
  pub data Value : Type 0 where
    literal : Literal → Value
    binding : String → Option BindingId → Value
    field_access : FieldPath → Value
    fn_call : ℕ → Option (List ℕ) → Value
    bin_expr : BinOp → ℕ → ℕ → Value
    uni_expr : UniOp → ℕ → Value
    struct_init : TypedPath → List (String × ℕ) → Value
    anon_struct_init : List (String × ℕ) → Value
    array_init : ArrayInit → Value
    indexing : ℕ → ℕ → Value
    mod_access : ModulePath → Option ℕ → Value
    anonymous_fn : ℕ → Value
    type_inst : ModulePath → Annotations → Option ℕ → Value

  -- `map: HashMap<TmpId, Tmp>`, where a `Tmp` has its key for an id and a value.
  pub data Tmps : Type 0 where
    no_tmps : Tmps
    tmp : ℕ → Value → Tmps → Tmps

  -- `map` and `execution_order`
  pub data Expr : Type 0 where
    expr_of : Tmps → List ℕ → Expr

  -- `root_name`, `root_indexing` and `path`
  pub data FieldPath : Type 0 where
    path_of : String → RootIndexing → Segments → FieldPath

  -- An `Option<Expr>`.
  pub data RootIndexing : Type 0 where
    no_index : RootIndexing
    index_by : Expr → RootIndexing

  pub data Segments : Type 0 where
    no_segments : Segments
    ident : String → Segments → Segments
    indexed : String → Expr → Segments → Segments

-- `Expr::new`
abbrev pub new : Expr
new = expr_of no_tmps []

unfoldable pub lookup_tmp : ℕ → Tmps → Option Value
lookup_tmp id no_tmps = none
lookup_tmp id (tmp j v rest) = let later = lookup_tmp id rest in if j == id then some v else later

abbrev pub get_tmp : Expr → ℕ → Option Value
get_tmp (expr_of tmps order) id = lookup_tmp id tmps

unfoldable pub last_of : List ℕ → Option ℕ
last_of [] = none
last_of (id ∷ []) = some id
last_of (id ∷ j ∷ ids) = last_of (j ∷ ids)

-- `Expr::last`, which unwraps.
abbrev pub last : Expr → Option ℕ
last (expr_of tmps order) = last_of order

-- `Expr::map_tmp`, which panics on an id that is there.
unfoldable pub map_tmp : ℕ → Value → Expr → Option (ℕ × Expr)
map_tmp id v (expr_of tmps order) = elim (lookup_tmp id tmps) [
  | none ↦ some (id, expr_of (tmp id v tmps) (order ++ id ∷ []))
  | some old ↦ none
]

-- The write through `get_tmp_mut`.
unfoldable pub set_tmp : ℕ → Value → Tmps → Tmps
set_tmp id w no_tmps = no_tmps
set_tmp id w (tmp j v rest) =
    let later = set_tmp id w rest in if j == id then tmp j w rest else tmp j v later
