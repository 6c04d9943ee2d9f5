-- ===== src/ExprFlow/Temps.antt =====
-- The temporaries of an expression of smpl/src/analysis/typed_ast.rs, as expr_flow.rs changes them.
use smpl_mirror.Common.{
  ℕ, ◌<◌, ◌≡◌, refl, List, [], ◌∷◌, ◌++◌, none, some, arith, ◌==◌, Bool-cases, inl, inr,
}
use smpl_mirror.TypedAst.{
  Value, Tmps, no_tmps, tmp, Expr, expr_of, lookup_tmp, set_tmp, ArrayInit, get_tmp, last, last_of,
}
use smpl_mirror.TypedAst

-- Each id has a temporary.
abbrev pub AllMapped : Tmps → List ℕ → Type 0
AllMapped tmps [] = Unit
AllMapped tmps (id ∷ ids) = ((v : Value) × (lookup_tmp id tmps ≡ some v)) × AllMapped tmps ids

abbrev pub IsMapped : Expr → Type 0
IsMapped (expr_of tmps order) = AllMapped tmps order

pub last_of-append : (ids : List ℕ) (id : ℕ) → last_of (ids ++ id ∷ []) ≡ some id
unfolding last_of
last_of-append [] id = refl
last_of-append (j ∷ []) id = refl
last_of-append (j ∷ k ∷ ids) id = last_of-append (k ∷ ids) id

pub lookup-tmp :
    (id j : ℕ) (v : Value) (tmps : Tmps)
    → (w : Value) × (lookup_tmp j tmps ≡ some w)
    → (w : Value) × (lookup_tmp j (tmp id v tmps) ≡ some w)
unfolding lookup_tmp
lookup-tmp id j v tmps (w, e) = elim (Bool-cases (id == j)) [
  | inl p ↦ (v, rw p)
  | inr p ↦ (w, rw (p, e))
]

pub AllMapped-append :
    (tmps : Tmps) (ids : List ℕ) (id : ℕ) (v : Value)
    → AllMapped tmps ids
    → AllMapped (tmp id v tmps) (ids ++ id ∷ [])
unfolding lookup_tmp
AllMapped-append tmps [] id v a = ((v, ground arith), tt)
AllMapped-append tmps (j ∷ ids) id v (found, a) =
    (lookup-tmp id j v tmps found, AllMapped-append tmps ids id v a)

pub lookup-set_tmp :
    (id j : ℕ) (v : Value) (tmps : Tmps)
    → (w : Value) × (lookup_tmp j tmps ≡ some w)
    → (w : Value) × (lookup_tmp j (set_tmp id v tmps) ≡ some w)
unfolding lookup_tmp set_tmp
lookup-set_tmp id j v (tmp k x tmps) (w, e) = elim (Bool-cases (k == id)) [
  | inl p ↦ elim (Bool-cases (k == j)) [
    | inl q ↦ (v, rw (p, q))
    | inr q ↦ (w, rw (p, q) (rw q at e))
  ]
  | inr p ↦ elim (Bool-cases (k == j)) [
    | inl q ↦ (x, rw (p, q))
    | inr q ↦ rw (p, q) (lookup-set_tmp id j v tmps (w, rw q at e))
  ]
]
lookup-set_tmp id j v no_tmps (w, e) = cc

pub lookup_none-set_tmp :
    (id j : ℕ) (v : Value) (tmps : Tmps)
    → lookup_tmp j tmps ≡ none
    → lookup_tmp j (set_tmp id v tmps) ≡ none
unfolding lookup_tmp set_tmp
lookup_none-set_tmp id j v no_tmps e = refl
lookup_none-set_tmp id j v (tmp k x tmps) e = ground (arith, lookup_none-set_tmp id j v tmps)

pub AllMapped-set_tmp :
    (id : ℕ) (v : Value) (tmps : Tmps) (ids : List ℕ)
    → AllMapped tmps ids
    → AllMapped (set_tmp id v tmps) ids
AllMapped-set_tmp id v tmps [] a = tt
AllMapped-set_tmp id v tmps (j ∷ ids) (found, a) =
    (lookup-set_tmp id j v tmps found, AllMapped-set_tmp id v tmps ids a)

-- What `map_tmp` makes of an expression without the id.
pub record Mapped (id : ℕ) (v : Value) (e : Expr) : Type 0 where
  pub after : Expr
  pub runs : TypedAst.map_tmp id v e ≡ some (id, after)
  pub is_last : last after ≡ some id
  pub found : get_tmp after id ≡ some v
  pub mapped : IsMapped e → IsMapped after
  pub below : (j : ℕ) → id < j → get_tmp e j ≡ none → get_tmp after j ≡ none

pub map_tmp-Mapped : (id : ℕ) (v : Value) (e : Expr) → get_tmp e id ≡ none → Mapped id v e
unfolding TypedAst.map_tmp
map_tmp-Mapped id v (expr_of tmps order) fresh = record {
  after = expr_of (tmp id v tmps) (order ++ id ∷ []);
  runs = rw (TypedAst.map_tmp, fresh);
  is_last = last_of-append order id;
  found = unfold lookup_tmp in ground arith;
  mapped = λ a. AllMapped-append tmps order id v a;
  below = λ j lt none_there. unfold lookup_tmp in ground arith;
}
