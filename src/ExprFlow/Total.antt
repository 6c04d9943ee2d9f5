-- ===== src/ExprFlow/Total.antt =====
-- Flattening an expression, from counters that are ahead of every id in use.
use smpl_mirror.Common.{ℕ, none, some}
use smpl_mirror.Ast
use smpl_mirror.Ast.{
  AnonymousFn, Exprs, no_exprs, and_expr, FieldInit, no_inits, and_init, FnCall, call_no_args,
  call_args, FnCalls, no_calls, and_call,
}
use smpl_mirror.TypedAst.{Value, ArrayInit}
use smpl_mirror.ExprFlow.{
  State, M, path_value, flatten_expr, flatten_call, flatten_chain, flatten_exprs, flatten_init,
  flatten_path, flatten_segments, flatten,
}
use smpl_mirror.ExprFlow.Steps.{
  Good, Done, bind-Done, pure-Done, IsLast, IsCall, IsFlat, new_tmp-Done, new_tmp-IsCall,
  new_anonymous_fn-Done, chain_arg-Done, buffered-Done, in_new_scope-Done, no_fns-Good,
  new_scope-Good,
}

call-IsLast : {lo : ℕ} {s : State} {m : M ℕ} → Done lo s m IsCall → Done lo s m IsLast
call-IsLast d = record {
  answer = d.answer;
  after = d.after;
  runs = d.runs;
  good = d.good;
  ahead = d.ahead;
  right = d.right.0;
}

abbrev Anything : {A : Type 0} → A → State → Type 0
Anything a s = Unit

mutual
  unfolding flatten_expr flatten_call flatten_chain flatten_exprs flatten_init flatten_path
      flatten_segments

  flatten_expr-Done :
      {lo : ℕ} (e : Ast.Expr) {s : State} → Good lo s → Done lo s (flatten_expr e) IsLast
  flatten_expr-Done (Ast.bin op lhs rhs) g = bind-Done (flatten_expr-Done lhs g) (λ l s₁ g₁ _.
      bind-Done (flatten_expr-Done rhs g₁) (λ r s₂ g₂ _. new_tmp-Done g₂ (Value.bin_expr op l r)))
  flatten_expr-Done (Ast.uni op e) g =
      bind-Done (flatten_expr-Done e g) (λ id s₁ g₁ _. new_tmp-Done g₁ (Value.uni_expr op id))
  flatten_expr-Done (Ast.literal lit) g = new_tmp-Done g (Value.literal lit)
  flatten_expr-Done (Ast.struct_init name init) g =
      bind-Done (flatten_init-Done init g)
        (λ fields s₁ g₁ _. new_tmp-Done g₁ (Value.struct_init name fields))
  flatten_expr-Done (Ast.anon_struct_init init) g =
      bind-Done (flatten_init-Done init g)
        (λ fields s₁ g₁ _. new_tmp-Done g₁ (Value.anon_struct_init fields))
  flatten_expr-Done (Ast.binding x) g = new_tmp-Done g (Value.binding x none)
  flatten_expr-Done (Ast.field_access p) g =
      bind-Done (flatten_path-Done p g) (λ path s₁ g₁ _. new_tmp-Done g₁ (Value.field_access path))
  flatten_expr-Done (Ast.fn_call call) g = call-IsLast (flatten_call-Done call g)
  flatten_expr-Done (Ast.init_list es) g =
      bind-Done (flatten_exprs-Done es g)
        (λ ids s₁ g₁ _. new_tmp-Done g₁ (Value.array_init (ArrayInit.list ids)))
  flatten_expr-Done (Ast.init_value e size) g =
      bind-Done (flatten_expr-Done e g)
        (λ id s₁ g₁ _. new_tmp-Done g₁ (Value.array_init (ArrayInit.value id size)))
  flatten_expr-Done (Ast.indexing array indexer) g =
      bind-Done (flatten_expr-Done array g) (λ a s₁ g₁ _.
        bind-Done (flatten_expr-Done indexer g₁)
          (λ i s₂ g₂ _. new_tmp-Done g₂ (Value.indexing a i)))
  flatten_expr-Done (Ast.path p) g = new_tmp-Done g (path_value p)
  flatten_expr-Done (Ast.anonymous_fn f) g =
      bind-Done (new_anonymous_fn-Done g f) (λ id s₁ g₁ _. new_tmp-Done g₁ (Value.anonymous_fn id))
  flatten_expr-Done (Ast.fn_call_chain base chain) g =
      bind-Done (flatten_call-Done base g) (λ id s₁ g₁ c. flatten_chain-Done chain id g₁ c.0)

  flatten_call-Done :
      {lo : ℕ} (c : FnCall) {s : State} → Good lo s → Done lo s (flatten_call c) IsCall
  flatten_call-Done (call_no_args p) g =
      bind-Done (new_tmp-Done g (path_value p)) (λ f s₁ g₁ _. new_tmp-IsCall g₁ f none)
  flatten_call-Done (call_args p es) g = bind-Done (new_tmp-Done g (path_value p)) (λ f s₁ g₁ _.
      bind-Done (flatten_exprs-Done es g₁) (λ args s₂ g₂ _. new_tmp-IsCall g₂ f (some args)))

  flatten_chain-Done :
      {lo : ℕ} (calls : FnCalls) (previous : ℕ) {s : State}
      → Good lo s
      → IsLast previous s
      → Done lo s (flatten_chain calls previous) IsLast
  flatten_chain-Done no_calls previous g l = pure-Done g l
  flatten_chain-Done (and_call call calls) previous g l =
      bind-Done (flatten_call-Done call g) (λ id s₁ g₁ c.
        bind-Done (chain_arg-Done g₁ id previous c)
          (λ _ s₂ g₂ l₂. flatten_chain-Done calls id g₂ l₂))

  flatten_exprs-Done :
      {lo : ℕ} (es : Exprs) {s : State} → Good lo s → Done lo s (flatten_exprs es) Anything
  flatten_exprs-Done no_exprs g = pure-Done g tt
  flatten_exprs-Done (and_expr e es) g =
      bind-Done (flatten_expr-Done e g)
        (λ id s₁ g₁ _. bind-Done (flatten_exprs-Done es g₁) (λ ids s₂ g₂ _. pure-Done g₂ tt))

  flatten_init-Done :
      {lo : ℕ} (init : FieldInit) {s : State} → Good lo s → Done lo s (flatten_init init) Anything
  flatten_init-Done no_inits g = pure-Done g tt
  flatten_init-Done (and_init x e init) g =
      bind-Done (flatten_expr-Done e g)
        (λ id s₁ g₁ _. bind-Done (flatten_init-Done init g₁) (λ fields s₂ g₂ _. pure-Done g₂ tt))

  flatten_path-Done :
      {lo : ℕ} (p : Ast.FieldPath) {s : State} → Good lo s → Done lo s (flatten_path p) Anything
  flatten_path-Done (Ast.path_of (Ast.ident x) segments) g =
      buffered-Done g (λ _. Unit)
        (bind-Done (flatten_segments-Done segments (no_fns-Good g))
          (λ path s₁ g₁ _. pure-Done g₁ tt))
  flatten_path-Done (Ast.path_of (Ast.indexed x e) segments) g =
      buffered-Done g (λ _. Unit)
        (bind-Done
          (let g₀ = no_fns-Good g in
            buffered-Done g₀ IsFlat (
              in_new_scope-Done (no_fns-Good g₀)
                (flatten_expr-Done e (new_scope-Good (no_fns-Good g₀)))))
          (λ index s₁ g₁ _.
            bind-Done (flatten_segments-Done segments g₁) (λ path s₂ g₂ _. pure-Done g₂ tt)))

  flatten_segments-Done :
      {lo : ℕ} (segments : Ast.Segments) {s : State}
      → Good lo s
      → Done lo s (flatten_segments segments) Anything
  flatten_segments-Done Ast.no_segments g = pure-Done g tt
  flatten_segments-Done (Ast.and_segment (Ast.ident x) segments) g =
      bind-Done (flatten_segments-Done segments g) (λ path s₁ g₁ _. pure-Done g₁ tt)
  flatten_segments-Done (Ast.and_segment (Ast.indexed x e) segments) g =
      bind-Done
        (buffered-Done g IsFlat (
          in_new_scope-Done (no_fns-Good g) (flatten_expr-Done e (new_scope-Good (no_fns-Good g)))))
        (λ index s₁ g₁ _.
          bind-Done (flatten_segments-Done segments g₁) (λ path s₂ g₂ _. pure-Done g₂ tt))

-- From a good state, every expression is flattened without a panic: the counters never give an id
-- twice. The result has a last temporary, each id in its order of execution has a temporary, and
-- the state that is left is good again, with its counter of ids no smaller.
pub flatten-Done :
    (lo : ℕ) (e : Ast.Expr) (s : State) → Good lo s → Done lo s (flatten e) (λ flat s'. IsFlat flat)
unfolding flatten
flatten-Done lo e s g =
    buffered-Done g IsFlat
      (in_new_scope-Done (no_fns-Good g) (flatten_expr-Done e (new_scope-Good (no_fns-Good g))))

-- The same of the path of an assignment.
pub flatten_path_lem :
    (lo : ℕ) (p : Ast.FieldPath) (s : State)
    → Good lo s
    → Done lo s (flatten_path p) (λ path s'. Unit)
flatten_path_lem lo p s g = flatten_path-Done p g
