-- ===== src/ExprFlow.antt =====
-- smpl/src/analysis/expr_flow.rs: an expression of the syntax becomes temporaries in their order
-- of execution. And smpl/src/analysis/anon_storage.rs, in which anonymous functions are put aside.
pub mod Storage
pub mod Steps
pub mod Temps
mod Tests
pub mod Total
use smpl_mirror.Common.{
  ℕ, zero, suc, ◌+◌, String, List, [], ◌∷◌, Option, none, some, lookup_id, insert_id,
}
use smpl_mirror.Ast
use smpl_mirror.Ast.{
  nill_arity, parameterized, TypedPath, AnonymousFn, Exprs, no_exprs, and_expr, FieldInit, no_inits,
  and_init, FnCall, call_no_args, call_args, FnCalls, no_calls, and_call,
}
use smpl_mirror.TypedAst.{Value, Tmps, Expr, expr_of, lookup_tmp, set_tmp, ArrayInit}
use smpl_mirror.TypedAst

-- `AnonStorage`
abbrev pub AnonStorage : Type 0
AnonStorage = List (ℕ × AnonymousFn)

unfoldable pub insert_fn : ℕ → AnonymousFn → AnonStorage → Option AnonStorage
insert_fn id f m = elim (lookup_id id m) [ none ↦ some (insert_id id f m) | some old ↦ none ]

-- What the functions change: the counters of `LocalData` and `GlobalData`, the storage for
-- anonymous functions, and the expression that is being made.
pub record State : Type 0 where
  pub next_id : ℕ
  pub next_fn_id : ℕ
  pub anonymous_fns : AnonStorage
  pub scope : Expr

-- `none` is a panic.
abbrev pub M : Type 0 → Type 0
M A = State → Option (A × State)

abbrev pub pure : {A : Type 0} → A → M A
pure a s = some (a, s)

infixl 5 ◌>>=◌
abbrev pub ◌>>=◌ : {A B : Type 0} → M A → (A → M B) → M B
◌>>=◌ m f s = elim (m s) [ none ↦ none | some (a, s') ↦ f a s' ]

-- `scope.map_tmp(local_data.new_tmp_id(), ..)`
unfoldable pub new_tmp : Value → M ℕ
new_tmp v s = elim (TypedAst.map_tmp s.next_id v s.scope) [
  | none ↦ none
  | some (id, scope) ↦ some (id, record s { next_id = s.next_id + 1; scope = scope })
]

unfoldable pub new_anonymous_fn : AnonymousFn → M ℕ
unfolding insert_fn
new_anonymous_fn f s = elim (insert_fn s.next_fn_id f s.anonymous_fns) [
  | none ↦ none
  | some fns ↦ some (s.next_fn_id, record s { next_fn_id = s.next_fn_id + 1; anonymous_fns = fns })
]

-- `AnonStorage::append`: the functions of the second storage, each inserted into the first.
unfoldable pub append_fns : AnonStorage → AnonStorage → Option AnonStorage
unfolding insert_fn
append_fns m [] = some m
append_fns m ((id, f) ∷ fns) = elim (insert_fn id f m) [ none ↦ none | some m' ↦ append_fns m' fns ]

-- `m` with a storage of its own, which is then appended.
unfoldable pub buffered : {A : Type 0} → M A → M A
unfolding append_fns
buffered m s = elim (m (record s { anonymous_fns = [] })) [
  | none ↦ none
  | some (a, s') ↦ elim (append_fns s.anonymous_fns s'.anonymous_fns) [
    | none ↦ none
    | some fns ↦ some (a, record s' { anonymous_fns = fns })
  ]
]

-- `flatten`, given `flatten_expr`: an expression of its own, whose span is left out.
unfoldable pub in_new_scope : M ℕ → M Expr
in_new_scope m s = elim (m (record s { scope = TypedAst.new })) [
  | none ↦ none
  | some (id, s') ↦ some (s'.scope, record s' { scope = s.scope })
]

-- `AstExpr::Path`: a path of one name is a binding.
abbrev pub path_value : TypedPath → Value
path_value (nill_arity (x ∷ [])) = Value.binding x none
path_value (nill_arity p) = Value.mod_access p none
path_value (parameterized p annotations) = Value.type_inst p annotations none

abbrev pub with_first : ℕ → Option (List ℕ) → List ℕ
with_first id none = id ∷ []
with_first id (some args) = id ∷ args

abbrev first_arg : ℕ → ℕ → Option Value → M (Unit {0})
first_arg call previous (some (Value.fn_call f args)) s =
    let value = Value.fn_call f (some (with_first previous args)) in
    elim s.scope [
      | expr_of tmps order ↦ some (tt, record s { scope = expr_of (set_tmp call value tmps) order })
    ]
first_arg call previous _ s = none

-- The result of a call becomes the first argument of the next call, whose temporary is there.
unfoldable pub chain_arg : ℕ → ℕ → M (Unit {0})
chain_arg call previous s = first_arg call previous (TypedAst.get_tmp s.scope call) s

unfoldable mutual
  unfolding new_tmp new_anonymous_fn chain_arg buffered in_new_scope

  pub flatten_expr : Ast.Expr → M ℕ
  flatten_expr (Ast.bin op lhs rhs) = do
    l ← flatten_expr lhs
    r ← flatten_expr rhs
    new_tmp (Value.bin_expr op l r)
  flatten_expr (Ast.uni op e) = do id ← flatten_expr e; new_tmp (Value.uni_expr op id)
  flatten_expr (Ast.literal lit) = new_tmp (Value.literal lit)
  flatten_expr (Ast.struct_init name init) = do
    fields ← flatten_init init
    new_tmp (Value.struct_init name fields)
  flatten_expr (Ast.anon_struct_init init) = do
    fields ← flatten_init init
    new_tmp (Value.anon_struct_init fields)
  flatten_expr (Ast.binding x) = new_tmp (Value.binding x none)
  flatten_expr (Ast.field_access p) = do path ← flatten_path p; new_tmp (Value.field_access path)
  flatten_expr (Ast.fn_call call) = flatten_call call
  flatten_expr (Ast.init_list es) = do
    ids ← flatten_exprs es
    new_tmp (Value.array_init (ArrayInit.list ids))
  flatten_expr (Ast.init_value e size) = do
    id ← flatten_expr e
    new_tmp (Value.array_init (ArrayInit.value id size))
  flatten_expr (Ast.indexing array indexer) = do
    a ← flatten_expr array
    i ← flatten_expr indexer
    new_tmp (Value.indexing a i)
  flatten_expr (Ast.path p) = new_tmp (path_value p)
  flatten_expr (Ast.anonymous_fn f) = do id ← new_anonymous_fn f; new_tmp (Value.anonymous_fn id)
  flatten_expr (Ast.fn_call_chain base chain) = do id ← flatten_call base; flatten_chain chain id

  pub flatten_call : FnCall → M ℕ
  flatten_call (call_no_args p) = do f ← new_tmp (path_value p); new_tmp (Value.fn_call f none)
  flatten_call (call_args p es) = do
    f ← new_tmp (path_value p)
    args ← flatten_exprs es
    new_tmp (Value.fn_call f (some args))

  pub flatten_chain : FnCalls → ℕ → M ℕ
  flatten_chain no_calls previous = pure previous
  flatten_chain (and_call call calls) previous = do
    id ← flatten_call call
    done ← chain_arg id previous
    flatten_chain calls id

  pub flatten_exprs : Exprs → M (List ℕ)
  flatten_exprs no_exprs = pure []
  flatten_exprs (and_expr e es) = do id ← flatten_expr e; ids ← flatten_exprs es; pure (id ∷ ids)

  pub flatten_init : FieldInit → M (List (String × ℕ))
  flatten_init no_inits = pure []
  flatten_init (and_init x e init) = do
    id ← flatten_expr e
    fields ← flatten_init init
    pure ((x, id) ∷ fields)

  -- `FieldAccess::new` with `Path::new`
  pub flatten_path : Ast.FieldPath → M TypedAst.FieldPath
  flatten_path (Ast.path_of (Ast.ident x) segments) =
      buffered
        (do path ← flatten_segments segments; pure (TypedAst.path_of x TypedAst.no_index path))
  flatten_path (Ast.path_of (Ast.indexed x e) segments) = buffered (do
    index ← buffered (in_new_scope (flatten_expr e))
    path ← flatten_segments segments
    pure (TypedAst.path_of x (TypedAst.index_by index) path))

  pub flatten_segments : Ast.Segments → M TypedAst.Segments
  flatten_segments Ast.no_segments = pure TypedAst.no_segments
  flatten_segments (Ast.and_segment (Ast.ident x) segments) = do
    path ← flatten_segments segments
    pure (TypedAst.ident x path)
  flatten_segments (Ast.and_segment (Ast.indexed x e) segments) = do
    index ← buffered (in_new_scope (flatten_expr e))
    path ← flatten_segments segments
    pure (TypedAst.indexed x index path)

-- `flatten`, with the storage that it returns already appended to that of the caller.
unfoldable pub flatten : Ast.Expr → M Expr
unfolding flatten_expr
flatten e = buffered (in_new_scope (flatten_expr e))
