-- ===== src/ExprFlow/Steps.antt =====
-- The steps of smpl/src/analysis/expr_flow.rs, from states whose counters are ahead of every id
-- in use.
use smpl_mirror.Common.{ℕ, suc, ◌+◌, ◌≤◌, ◌≡◌, refl, List, [], Option, none, some, arith}
use smpl_mirror.Ast.{AnonymousFn}
use smpl_mirror.TypedAst.{
  Value, Tmps, no_tmps, tmp, Expr, expr_of, lookup_tmp, set_tmp, ArrayInit, get_tmp, last, last_of,
}
use smpl_mirror.TypedAst
use smpl_mirror.ExprFlow.{
  AnonStorage, State, M, pure, ◌>>=◌, new_tmp, new_anonymous_fn, buffered, in_new_scope, chain_arg,
  with_first,
}
use smpl_mirror.ExprFlow.Storage.{InRange, insert_fn-InRange, append_fns-InRange}
use smpl_mirror.ExprFlow.Temps.{IsMapped, lookup_none-set_tmp, AllMapped-set_tmp, map_tmp-Mapped}

-- The counters are ahead of the ids in use, and every id in the order has a temporary.
pub record Good (lo : ℕ) (s : State) : Type 0 where
  pub below : (id : ℕ) → s.next_id ≤ id → get_tmp s.scope id ≡ none
  pub mapped : IsMapped s.scope
  pub fns : InRange lo s.next_fn_id s.anonymous_fns

-- The call answers, in a state that is good again, and the answer is right.
pub record Done {A : Type 0} (lo : ℕ) (s : State) (m : M A) (Q : A → State → Type 0) : Type 0 where
  pub answer : A
  pub after : State
  pub runs : m s ≡ some (answer, after)
  pub good : Good lo after
  pub ahead : s.next_id ≤ after.next_id
  pub right : Q answer after

pub bind-Done :
    {A B : Type 0} {lo : ℕ} {s : State} {m : M A} {f : A → M B} {Q : A → State → Type 0}
    {R : B → State → Type 0}
    → Done lo s m Q
    → ((a : A) (s' : State) → Good lo s' → Q a s' → Done lo s' (f a) R)
    → Done lo s (m >>= f) R
bind-Done {s = s} {m = m} {f = f} d next =
    let e = next d.answer d.after d.good d.right in
    record {
      answer = e.answer;
      after = e.after;
      runs = rw (◌>>=◌, d.runs) e.runs;
      good = e.good;
      ahead = omega (arith, d.ahead, e.ahead);
      right = e.right;
    }

pub pure-Done :
    {A : Type 0} {lo : ℕ} {s : State} {a : A} {Q : A → State → Type 0}
    → Good lo s
    → Q a s
    → Done lo s (pure a) Q
pure-Done {s = s} {a = a} g q = record {
  answer = a;
  after = s;
  runs = refl;
  good = g;
  ahead = omega arith;
  right = q;
}

abbrev pub IsLast : ℕ → State → Type 0
IsLast id s = last s.scope ≡ some id

-- A call that answers the id of a call's temporary, the last of the expression.
abbrev pub IsCall : ℕ → State → Type 0
IsCall id s =
    IsLast id s
    × ((f : ℕ) × (args : Option (List ℕ)) × (get_tmp s.scope id ≡ some (Value.fn_call f args)))

-- A flattened expression: it has a last temporary, and each id in its order has one.
abbrev pub IsFlat : Expr → Type 0
IsFlat e = IsMapped e × ((id : ℕ) × (last e ≡ some id))

pub chain_arg-at :
    (lo next_id next_fn_id : ℕ) (fns : AnonStorage) (e : Expr) (call previous : ℕ)
    → Good lo
        (record { next_id = next_id; next_fn_id = next_fn_id; anonymous_fns = fns; scope = e })
    → IsCall call
        (record { next_id = next_id; next_fn_id = next_fn_id; anonymous_fns = fns; scope = e })
    → Done lo
        (record { next_id = next_id; next_fn_id = next_fn_id; anonymous_fns = fns; scope = e })
        (chain_arg call previous)
        (λ _ s'. IsLast call s')
unfolding chain_arg
chain_arg-at lo next_id next_fn_id fns (expr_of tmps order) call previous g
      (is_last, (f, args, found)) =
    let value = Value.fn_call f (some (with_first previous args)) in
    record {
      answer = tt;
      after = record {
        next_id = next_id;
        next_fn_id = next_fn_id;
        anonymous_fns = fns;
        scope = expr_of (set_tmp call value tmps) order;
      };
      runs = rw (chain_arg, found);
      good = record {
        below = λ id le. lookup_none-set_tmp call id value tmps (g.below id le);
        mapped = AllMapped-set_tmp call value tmps order g.mapped;
        fns = g.fns;
      };
      ahead = omega arith;
      right = is_last;
    }

module _ {lo : ℕ} {s : State} (g : Good lo s) where
  pub new_tmp-Found :
      (v : Value) → Done lo s (new_tmp v) (λ id s'. IsLast id s' × (get_tmp s'.scope id ≡ some v))
  unfolding new_tmp
  new_tmp-Found v =
      let m = map_tmp-Mapped s.next_id v s.scope (g.below s.next_id (omega arith)) in
      record {
        answer = s.next_id;
        after = record s { next_id = s.next_id + 1; scope = m.after };
        runs = rw (new_tmp, m.runs);
        good = record {
          below = λ id le. m.below id (omega arith) (g.below id (omega arith));
          mapped = m.mapped g.mapped;
          fns = g.fns;
        };
        ahead = omega arith;
        right = (m.is_last, m.found);
      }

  pub new_tmp-Done : (v : Value) → Done lo s (new_tmp v) IsLast
  new_tmp-Done v =
      let d = new_tmp-Found v in
      record {
        answer = d.answer;
        after = d.after;
        runs = d.runs;
        good = d.good;
        ahead = d.ahead;
        right = d.right.0;
      }

  pub new_tmp-IsCall :
      (f : ℕ) (args : Option (List ℕ)) → Done lo s (new_tmp (Value.fn_call f args)) IsCall
  new_tmp-IsCall f args =
      let d = new_tmp-Found (Value.fn_call f args) in
      record {
        answer = d.answer;
        after = d.after;
        runs = d.runs;
        good = d.good;
        ahead = d.ahead;
        right = (d.right.0, (f, args, d.right.1));
      }

  pub new_anonymous_fn-Done : (f : AnonymousFn) → Done lo s (new_anonymous_fn f) (λ id s'. Unit)
  unfolding new_anonymous_fn
  new_anonymous_fn-Done f =
      let (m, p, r) =
        insert_fn-InRange lo s.next_fn_id s.next_fn_id f s.anonymous_fns g.fns (omega arith) in
      let next : suc s.next_fn_id ≡ s.next_fn_id + 1 = omega arith in
      record {
        answer = s.next_fn_id;
        after = record s { next_fn_id = s.next_fn_id + 1; anonymous_fns = m };
        runs = rw (new_anonymous_fn, p);
        good = record { below = g.below; mapped = g.mapped; fns = rw (← next) r };
        ahead = omega arith;
        right = tt;
      }

  pub chain_arg-Done :
      (call previous : ℕ)
      → IsCall call s
      → Done lo s (chain_arg call previous) (λ _ s'. IsLast call s')
  chain_arg-Done call previous c =
      chain_arg-at lo s.next_id s.next_fn_id s.anonymous_fns s.scope call previous g c

  pub buffered-Done :
      {A : Type 0} {m : M A} (Q : A → Type 0)
      → Done s.next_fn_id (record s { anonymous_fns = [] }) m (λ a s'. Q a)
      → Done lo s (buffered m) (λ a s'. Q a)
  unfolding buffered
  buffered-Done Q d =
      let (fns, p, r) =
        append_fns-InRange lo s.next_fn_id d.after.next_fn_id s.anonymous_fns d.after.anonymous_fns
          g.fns d.good.fns in
      record {
        answer = d.answer;
        after = record d.after { anonymous_fns = fns };
        runs = rw (buffered, d.runs, p);
        good = record { below = d.good.below; mapped = d.good.mapped; fns = r };
        ahead = d.ahead;
        right = d.right;
      }

  pub in_new_scope-Done :
      {m : M ℕ}
      → Done lo (record s { scope = TypedAst.new }) m IsLast
      → Done lo s (in_new_scope m) (λ e s'. IsFlat e)
  unfolding in_new_scope
  in_new_scope-Done d = record {
    answer = d.after.scope;
    after = record d.after { scope = s.scope };
    runs = rw (in_new_scope, d.runs);
    good = record {
      below = λ id le. g.below id (omega (arith, d.ahead));
      mapped = g.mapped;
      fns = d.good.fns;
    };
    ahead = d.ahead;
    right = (d.good.mapped, (d.answer, d.right));
  }

  -- The starts of the two, which are good again.
  pub no_fns-Good : Good s.next_fn_id (record s { anonymous_fns = [] })
  no_fns-Good = record { below = g.below; mapped = g.mapped; fns = omega arith }

  pub new_scope-Good : Good lo (record s { scope = TypedAst.new })
  new_scope-Good = record { below = λ id le. unfold lookup_tmp in refl; mapped = tt; fns = g.fns }
