-- ===== src/Machine/Place/Laws.antt =====
-- What `store` writes, `fetch` reads, and a store leaves every other name alone.
use mathlib.Core.Path.{subst}
use smpl_mirror.Common.{
  String, List, [], ◌∷◌, Option, none, some, ◌≡◌, ◌≢◌, refl, sym, ◌∙◌, if◌then◌else◌, str_eq,
  eq_iff, arith, lookup-insert,
}
use smpl_mirror.Common.Options.{>>=-eq-some, some_inj}
use smpl_mirror.ByteCode.{FieldAccess, field, field_index, Location, compound, namespace, tmp}
use smpl_mirror.Machine.Value.{Value, array, struct, set_at, set_field}
use smpl_mirror.Machine.Value.Laws.{get_field-set_field_self, get-set_at, set_at-total}
use smpl_mirror.Machine.Env.{Env, map_value, map_tmp, get_value, get_tmp, write}
use smpl_mirror.Machine.Env
use smpl_mirror.Machine.Place.{
  Step, at_field, at_index, index_value, index_of, steps, place, child, replace_child, walk,
  rewrite, fetch, store,
}

child-replace_child :
    (s : Step) (x v : Value) {v' : Value} → replace_child s x v ≡ some v' → child s v' ≡ some x
child-replace_child (at_field f) x (struct s) h = ground (arith, get_field-set_field_self f x s)
child-replace_child (at_field f) x _ h = cc
child-replace_child (at_index k) x (array a) {v'} h =
    let (b, p, q) = >>=-eq-some (set_at k x a) (λ b. some (array b)) h in
    ground (arith, get-set_at k x a b p)
child-replace_child (at_index k) x _ h = cc

walk-rewrite :
    (ss : List Step) (x v : Value) {v' : Value} → rewrite ss x v ≡ some v' → walk ss v' ≡ some x
unfolding walk rewrite
walk-rewrite [] x v h = sym h
walk-rewrite (s ∷ ss) x v {v'} h =
    let (w, p, q) = >>=-eq-some (child s v) _ h in
    let (w', p', q') = >>=-eq-some (rewrite ss x w) _ q in
    rw (child-replace_child s w' v q') (walk-rewrite ss x w p')

replace_child-total :
    (s : Step) (x v : Value) {w : Value}
    → child s v ≡ some w
    → (v' : Value) × (replace_child s x v ≡ some v')
replace_child-total (at_field f) x (struct s) h = (struct (set_field f x s), refl)
replace_child-total (at_field f) x _ h = cc
replace_child-total (at_index k) x (array a) {w} h =
    let (b, p) = set_at-total k x w a h in (array b, rw p)
replace_child-total (at_index k) x _ h = cc

-- A write at a place that can be read succeeds.
rewrite-total :
    (ss : List Step) (x v : Value) {w : Value}
    → walk ss v ≡ some w
    → (v' : Value) × (rewrite ss x v ≡ some v')
unfolding walk rewrite
rewrite-total [] x v h = (x, refl)
rewrite-total (s ∷ ss) x v h =
    let (w, p, q) = >>=-eq-some (child s v) _ h in
    let (w', p') = rewrite-total ss x w q in
    let (v', q') = replace_child-total s w' v p in (v', rw (p, p') q')

-- Only arrays and structures have cells in them.
replace_child-index :
    (s : Step) (x v : Value) {v' : Value}
    → replace_child s x v ≡ some v'
    → (index_value v ≡ none) × (index_value v' ≡ none)
replace_child-index (at_field f) x (struct s) h = (refl, ground arith)
replace_child-index (at_field f) x _ h = cc
replace_child-index (at_index k) x (array a) h =
    let (b, p, q) = >>=-eq-some (set_at k x a) (λ b. some (array b)) h in (refl, ground arith)
replace_child-index (at_index k) x _ h = cc

get-write :
    (e : Env) (root n : String) (r' : Value) {r : Value}
    → Env.get root e ≡ some r
    → Env.get n (write root r' e) ≡ (if str_eq root n then some r' else Env.get n e)
unfolding Env.get write
get-write e root n r' h =
    ground
      (arith, lookup-insert root n r' e.env, lookup-insert root n r' e.tmp_store, eq_iff root n)

module _ (e : Env) (root : String) (r r' : Value) (at_root : Env.get root e ≡ some r)
    (old : index_value r ≡ none) (fresh : index_value r' ≡ none) where
  -- A write to a root that is no integer leaves every index variable as it was.
  index_of-write : (i : String) → index_of (write root r' e) i ≡ index_of e i
  unfolding index_of
  index_of-write i = ground (arith, get-write e root i r' at_root, eq_iff root i)

  steps-write : (path : List FieldAccess) → steps (write root r' e) path ≡ steps e path
  unfolding steps
  steps-write [] = refl
  steps-write (field f ∷ path) = rw (steps-write path)
  steps-write (field_index f i ∷ path) = rw (index_of-write i, steps-write path)

  place-write :
      (index : Option String) (path : List FieldAccess)
      → place (write root r' e) index path ≡ place e index path
  unfolding place
  place-write none path = steps-write path
  place-write (some i) path = rw (index_of-write i, steps-write path)

-- So a location leads to the same place after a write through it.
place-rewrite :
    (e : Env) (root : String) (index : Option String) (path : List FieldAccess) (ss : List Step)
    (x r r' : Value)
    → Env.get root e ≡ some r
    → place e index path ≡ some ss
    → rewrite ss x r ≡ some r'
    → place (write root r' e) index path ≡ some ss
unfolding rewrite place steps
place-rewrite e root index path (s ∷ ss) x r r' g p q =
    let (w, _, q₁) = >>=-eq-some (child s r) _ q in
    let (w', _, q₂) = >>=-eq-some (rewrite ss x w) _ q₁ in
    let (old, fresh) = replace_child-index s w' r q₂ in
    place-write e root r r' g old fresh index path ∙ p
place-rewrite e root none [] [] x r r' g p q = refl
place-rewrite e root none (field f ∷ path) [] x r r' g p q =
    let (ss, _, absurdity) = >>=-eq-some (steps e path) (λ ss. some (at_field f ∷ ss)) p in cc
place-rewrite e root none (field_index f i ∷ path) [] x r r' g p q =
    let (k, _, p₁) = >>=-eq-some (index_of e i) _ p in
    let (ss, _, p₂) = >>=-eq-some (steps e path) _ p₁ in cc
place-rewrite e root (some i) path [] x r r' g p q =
    let (k, _, p₁) = >>=-eq-some (index_of e i) _ p in
    let (ss, _, p₂) = >>=-eq-some (steps e path) _ p₁ in cc

get-write_self :
    (e : Env) (root : String) (r r' : Value)
    → Env.get root e ≡ some r
    → Env.get root (write root r' e) ≡ some r'
get-write_self e root r r' g = ground (arith, get-write e root root r' g, eq_iff root root)

-- If a store succeeds, the value stored at a location is the value fetched from it next, whatever the location: a
-- variable, a temporary, or a path of fields and indices into a variable, whose index variables
-- the store leaves alone.
pub fetch-store :
    (e e' : Env) (l : Location) (v : Value) → store e l v ≡ some e' → fetch e' l ≡ some v
unfolding fetch store map_value map_tmp get_value get_tmp
fetch-store e e' (namespace n) v h = ground (arith, lookup-insert n n v e.env, eq_iff n n)
fetch-store e e' (tmp n) v h = ground (arith, lookup-insert n n v e.tmp_store, eq_iff n n)
fetch-store e e' (compound root index path) v h =
    let (r, g, h₁) = >>=-eq-some (Env.get root e) _ h in
    let (ss, p, h₂) = >>=-eq-some (place e index path) _ h₁ in
    let (r', q, h₃) = >>=-eq-some (rewrite ss v r) _ h₂ in
    subst (λ d. fetch d (compound root index path) ≡ some v) (some_inj h₃)
      (rw (get-write_self e root r r' g, place-rewrite e root index path ss v r r' g p q)
        (walk-rewrite ss v r q))

-- A store succeeds at every location at which a fetch does.
pub store-total :
    (e : Env) (l : Location) (v : Value) {w : Value}
    → fetch e l ≡ some w
    → (e' : Env) × (store e l v ≡ some e')
unfolding fetch store map_value map_tmp
store-total e (namespace n) v h = (_, refl)
store-total e (tmp n) v h = (_, refl)
store-total e (compound root index path) v {w} h =
    let (r, g, h₁) = >>=-eq-some (Env.get root e) _ h in
    let (ss, p, h₂) = >>=-eq-some (place e index path) _ h₁ in
    let (r', q) = rewrite-total ss v r h₂ in (write root r' e, rw (g, p, q))

-- The variable or temporary that a location starts from.
abbrev pub root_of : Location → String
root_of (compound root index path) = root
root_of (namespace n) = n
root_of (tmp n) = n

write-frame :
    (e : Env) (root n : String) (v : Value)
    → root ≢ n
    → (get_value n (write root v e) ≡ get_value n e) × (get_tmp n (write root v e) ≡ get_tmp n e)
unfolding write get_value get_tmp
write-frame e root n v d =
    ground (arith, lookup-insert root n v e.env, lookup-insert root n v e.tmp_store, eq_iff root n)

-- A store that succeeds leaves alone every variable and every temporary of another name than the
-- one that its location starts from.
pub store-frame :
    (e e' : Env) (l : Location) (v : Value) (n : String)
    → store e l v ≡ some e'
    → root_of l ≢ n
    → (get_value n e' ≡ get_value n e) × (get_tmp n e' ≡ get_tmp n e)
unfolding store map_value map_tmp
store-frame e e' (namespace m) v n h d =
    unfold get_value get_tmp in ground (arith, lookup-insert m n v e.env, eq_iff m n)
store-frame e e' (tmp m) v n h d =
    unfold get_value get_tmp in ground (arith, lookup-insert m n v e.tmp_store, eq_iff m n)
store-frame e e' (compound root index path) v n h d =
    let (r, g, h₁) = >>=-eq-some (Env.get root e) _ h in
    let (ss, p, h₂) = >>=-eq-some (place e index path) _ h₁ in
    let (r', q, h₃) = >>=-eq-some (rewrite ss v r) _ h₂ in
    subst (λ d. (get_value n d ≡ get_value n e) × (get_tmp n d ≡ get_tmp n e)) (some_inj h₃)
      (write-frame e root n r' d)
