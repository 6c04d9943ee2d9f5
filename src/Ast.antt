-- ===== src/Ast.antt =====
-- smpl/src/ast.rs: the syntax of expressions and statements. An `AstNode` is its data: the spans,
-- which equality ignores, are left out. A list of a type that holds it is a type of its own.
use smpl_mirror.Common.{ℕ, String, List, Option, Bool}
use smpl_mirror.Common.Int.{ℤ}

pub data BinOp : Type 0 where
  add sub mul div modulo logical_and logical_or : BinOp
  greater_eq lesser_eq greater lesser eq in_eq : BinOp

pub data UniOp : Type 0 where
  ref deref negate logical_invert : UniOp

pub data Literal : Type 0 where
  string : String → Literal
  int : ℤ → Literal
  float : ℕ → Literal
  bool : Bool → Literal

abbrev pub ModulePath : Type 0
ModulePath = List String

-- `TypeParams` is its list of names.
mutual
  pub data TypeAnnotation : Type 0 where
    path : TypedPath → TypeAnnotation
    array : TypeAnnotation → ℕ → TypeAnnotation
    fn_type : Option (List String) → OptAnnotations → OptAnnotation → TypeAnnotation
    width_constraint : WidthConstraints → TypeAnnotation

  pub data TypedPath : Type 0 where
    nill_arity : ModulePath → TypedPath
    parameterized : ModulePath → Annotations → TypedPath

  pub data Annotations : Type 0 where
    no_annotations : Annotations
    annotation : TypeAnnotation → Annotations → Annotations

  pub data OptAnnotation : Type 0 where
    without : OptAnnotation
    with : TypeAnnotation → OptAnnotation

  pub data OptAnnotations : Type 0 where
    without_list : OptAnnotations
    with_list : Annotations → OptAnnotations

  pub data WidthConstraints : Type 0 where
    no_constraints : WidthConstraints
    base_struct : TypeAnnotation → WidthConstraints → WidthConstraints
    anonymous : FieldAnnotations → WidthConstraints → WidthConstraints

  pub data FieldAnnotations : Type 0 where
    no_fields : FieldAnnotations
    field_annotation : String → TypeAnnotation → FieldAnnotations → FieldAnnotations

pub record FnParameter : Type 0 where
  pub name : String
  pub param_type : TypeAnnotation

mutual
  pub data Expr : Type 0 where
    bin : BinOp → Expr → Expr → Expr
    uni : UniOp → Expr → Expr
    literal : Literal → Expr
    binding : String → Expr
    field_access : FieldPath → Expr
    fn_call : FnCall → Expr
    struct_init : TypedPath → FieldInit → Expr
    anon_struct_init : FieldInit → Expr
    -- `ArrayInit::InitList` and `ArrayInit::Value`
    init_list : Exprs → Expr
    init_value : Expr → ℕ → Expr
    indexing : Expr → Expr → Expr
    anonymous_fn : AnonymousFn → Expr
    fn_call_chain : FnCall → FnCalls → Expr
    path : TypedPath → Expr

  pub data Exprs : Type 0 where
    no_exprs : Exprs
    and_expr : Expr → Exprs → Exprs

  pub data FieldInit : Type 0 where
    no_inits : FieldInit
    and_init : String → Expr → FieldInit → FieldInit

  -- The arguments are an `Option<Vec<Expr>>`.
  pub data FnCall : Type 0 where
    call_no_args : TypedPath → FnCall
    call_args : TypedPath → Exprs → FnCall

  pub data FnCalls : Type 0 where
    no_calls : FnCalls
    and_call : FnCall → FnCalls → FnCalls

  pub data PathSegment : Type 0 where
    ident : String → PathSegment
    indexed : String → Expr → PathSegment

  -- The first segment of a path is its root.
  pub data FieldPath : Type 0 where
    path_of : PathSegment → Segments → FieldPath

  pub data Segments : Type 0 where
    no_segments : Segments
    and_segment : PathSegment → Segments → Segments

  pub data AnonymousFn : Type 0 where
    anonymous_fn_of : Option (List FnParameter) → OptAnnotation → Block → AnonymousFn

  -- `Stmt` with the `ExprStmt`s in it.
  pub data Stmt : Type 0 where
    expr : Expr → Stmt
    if_stmt : Branch → Branches → OptBlock → Stmt
    while_stmt : Expr → Block → Stmt
    local_var_decl : OptAnnotation → String → Expr → Stmt
    assignment : FieldPath → Expr → Stmt
    return_stmt : Stmt
    return_expr : Expr → Stmt
    break_stmt continue_stmt : Stmt

  pub data Block : Type 0 where
    no_stmts : Block
    and_stmt : Stmt → Block → Block

  pub data OptBlock : Type 0 where
    no_block : OptBlock
    default_block : Block → OptBlock

  pub data Branch : Type 0 where
    branch_of : Expr → Block → Branch

  -- The branches after the first, of which there is always one.
  pub data Branches : Type 0 where
    no_branches : Branches
    and_branch : Branch → Branches → Branches
