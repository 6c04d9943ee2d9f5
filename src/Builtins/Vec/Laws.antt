-- ===== src/Builtins/Vec/Laws.antt =====
-- The vector builtins against lists of values.
use smpl_mirror.Common.{
  ℕ, zero, suc, ◌+◌, ◌≤◌, ◌<◌, ◌^◌, ◌≡◌, refl, ap, List, [], ◌∷◌, ◌++◌, Option, none, some, true,
  false, ltb, ok, err, panic, arith, length, get_elem?, ok_or, ◌>>=◌, length-append, append-nil,
  append_assoc, ◌∙◌,
}
use smpl_mirror.Common.Int.{ℤ, pos, negsuc, ◌+ℤ◌, ◌-ℤ◌, as_usize, in_i64}
use smpl_mirror.Machine.Value.{
  Value, int, array, struct, Array, empty, item, Struct, len, get, push, insert_at, remove_at,
  get_field, set_field, from_list,
}
use smpl_mirror.Machine.Value.Laws.{get_field-set_field}
use smpl_mirror.Machine.Errors.{index_out_of_range, vec_error, Error}
use smpl_mirror.Machine.Arith.{Target}
use smpl_mirror.Machine.Arith
use smpl_mirror.Builtins.Args.{Answer}
use smpl_mirror.Builtins.OptionValue.{make_some, make_none}
use smpl_mirror.Builtins.Vec.{
  data_key, len_key, data_of, len_of, set_data, vec_new, vec_len, vec_insert, vec_push,
  vec_get_value, vec_get, vec_remove, vec_clear,
}

-- The value is a vector of these elements: its buffer holds them, and its length counts them.
pub data IsVec : Value → List Value → Type 0 where
  vec :
      {s : Struct} {xs : List Value}
      → get_field data_key s ≡ some (array (from_list xs))
      → get_field len_key s ≡ some (int (pos (length xs)))
      → IsVec (struct s) xs

-- An index at which a list has no element.
abbrev pub IsOutside : ℤ → List Value → Type 0
IsOutside (negsuc n) xs = Unit
IsOutside (pos n) xs = length xs ≤ n

len-from_list : (xs : List Value) → len (from_list xs) ≡ length xs
unfolding len from_list
len-from_list [] = refl
len-from_list (x ∷ xs) = ap suc (len-from_list xs)

get-from_list : (xs : List Value) (i : ℕ) → get i (from_list xs) ≡ get_elem? xs i
unfolding get from_list
get-from_list [] i = refl
get-from_list (x ∷ xs) zero = refl
get-from_list (x ∷ xs) (suc i) = get-from_list xs i

push-from_list : (x : Value) (xs : List Value) → push x (from_list xs) ≡ from_list (xs ++ x ∷ [])
unfolding push from_list
push-from_list x [] = refl
push-from_list x (y ∷ xs) = ap (item y) (push-from_list x xs)

insert_at-from_list :
    (x : Value) (xs ys : List Value)
    → insert_at (length xs) x (from_list (xs ++ ys)) ≡ some (from_list (xs ++ x ∷ ys))
unfolding insert_at from_list
insert_at-from_list x [] ys = refl
insert_at-from_list x (y ∷ xs) ys = rw (insert_at-from_list x xs ys)

remove_at-from_list :
    (y : Value) (xs ys : List Value)
    → remove_at (length xs) (from_list (xs ++ y ∷ ys)) ≡ some (from_list (xs ++ ys))
unfolding remove_at from_list
remove_at-from_list y [] ys = refl
remove_at-from_list y (x ∷ xs) ys = rw (remove_at-from_list y xs ys)

insert_at-beyond :
    (x : Value) (i : ℕ) (xs : List Value) → length xs < i → insert_at i x (from_list xs) ≡ none
unfolding insert_at from_list
insert_at-beyond x zero xs h = elim h [ ]
insert_at-beyond x (suc i) [] h = refl
insert_at-beyond x (suc i) (y ∷ xs) h = rw (insert_at-beyond x i xs (omega arith))

-- The two writes make a vector of the new elements, if the length comes out right.
set_data-IsVec :
    (s : Struct) (xs : List Value) (a : Array) (n : ℤ) (change : ℤ → Answer ℤ)
    → a ≡ from_list xs
    → get_field len_key s ≡ some (int n)
    → change n ≡ ok (pos (length xs))
    → (v : Value) × (set_data s a change ≡ ok v) × IsVec v xs
unfolding set_data len_of
set_data-IsVec s xs a n change e h c = (
  struct (set_field len_key (int (pos (length xs))) (set_field data_key (array a) s)),
  ground (arith, get_field-set_field data_key len_key (array a) s),
  vec
      (ground (
        arith,
        get_field-set_field len_key data_key (int (pos (length xs)))
            (set_field data_key (array a) s),
        get_field-set_field data_key data_key (array a) s,
      ))
      (ground (
        arith,
        get_field-set_field len_key len_key (int (pos (length xs)))
            (set_field data_key (array a) s),
      )),
)

vec_new-IsVec : (v : Value) × (vec_new [] ≡ ok v) × IsVec v []
unfolding vec_new get_field set_field from_list
vec_new-IsVec = (_, refl, vec refl refl)

vec_len-IsVec :
    {v : Value} {xs : List Value} → IsVec v xs → vec_len (v ∷ []) ≡ ok (int (pos (length xs)))
unfolding vec_len
vec_len-IsVec (vec d l) = rw l

module _ (t : Target) where
  grow : (n m : ℕ) → m ≡ n + 1 → m < 2 ^ 63 → Arith.add {E = Error} t (pos n) (pos 1) ≡ ok (pos m)
  unfolding Arith.add ◌+ℤ◌
  grow n m e h = ground arith

  shrink : (n m : ℕ) → n ≡ m + 1 → n < 2 ^ 63 → Arith.sub {E = Error} t (pos n) (pos 1) ≡ ok (pos m)
  unfolding Arith.sub ◌-ℤ◌
  shrink n m e h = ground arith

  -- `push` on a vector that holds some elements, of a length that stays below 2^63, answers a
  -- vector that holds the same elements with the value at the end.
  pub vec_push-IsVec :
      {v : Value} {xs : List Value} (x : Value)
      → length xs + 1 < 2 ^ 63
      → IsVec v xs
      → (v' : Value) × (vec_push t (v ∷ x ∷ []) ≡ ok v') × IsVec v' (xs ++ x ∷ [])
  unfolding vec_push data_of
  vec_push-IsVec {xs = xs} x h (vec {s = s} d l) =
      let n : length (xs ++ x ∷ []) ≡ length xs + 1 = omega (arith, length-append xs (x ∷ [])) in
      rw d (
        set_data-IsVec s (xs ++ x ∷ []) (push x (from_list xs)) (pos (length xs)) _
          (push-from_list x xs) l (grow (length xs) (length (xs ++ x ∷ [])) n (omega arith)))

  -- `insert` at an index up to the length, of a vector whose length stays below 2^63, answers a
  -- vector that holds the value before the elements from that index on.
  pub vec_insert-IsVec :
      {v : Value} (xs ys : List Value) (x : Value)
      → length (xs ++ ys) + 1 < 2 ^ 63
      → IsVec v (xs ++ ys)
      → (v' : Value) × (vec_insert t (v ∷ int (pos (length xs)) ∷ x ∷ []) ≡ ok v')
        × IsVec v' (xs ++ x ∷ ys)
  unfolding vec_insert data_of as_usize
  vec_insert-IsVec xs ys x h (vec {s = s} d l) =
      let n : length (xs ++ x ∷ ys) ≡ length (xs ++ ys) + 1 =
        omega (arith, length-append xs ys, length-append xs (x ∷ ys)) in
      rw (d, insert_at-from_list x xs ys)
        (set_data-IsVec s (xs ++ x ∷ ys) (from_list (xs ++ x ∷ ys)) (pos (length (xs ++ ys))) _ refl
          l (grow (length (xs ++ ys)) (length (xs ++ x ∷ ys)) n (omega arith)))

  -- `insert` into a vector of fewer than 2^63 elements panics at every `i64` that, as a `usize`,
  -- is past the length: the greater ones and the negative ones.
  pub vec_insert-beyond :
      {v : Value} (xs : List Value) (x : Value) (i : ℤ)
      → length xs < 2 ^ 63
      → in_i64 i ≡ true
      → length xs < as_usize i
      → IsVec v xs
      → vec_insert t (v ∷ int i ∷ x ∷ []) ≡ panic
  unfolding vec_insert data_of
  vec_insert-beyond xs x i h r b (vec {s = s} d l) =
      rw (d, insert_at-beyond x (as_usize i) xs b) refl

  -- `remove` at the index of an element, of a vector of fewer than 2^63 elements, answers a vector
  -- that holds the other elements in their order.
  pub vec_remove-IsVec :
      {v : Value} (xs ys : List Value) (y : Value)
      → length (xs ++ y ∷ ys) < 2 ^ 63
      → IsVec v (xs ++ y ∷ ys)
      → (v' : Value) × (vec_remove t (v ∷ int (pos (length xs)) ∷ []) ≡ ok v') × IsVec v' (xs ++ ys)
  unfolding vec_remove data_of
  vec_remove-IsVec xs ys y h (vec {s = s} d l) =
      let n : length (xs ++ y ∷ ys) ≡ length (xs ++ ys) + 1 =
        omega (arith, length-append xs ys, length-append xs (y ∷ ys)) in
      let inside : ltb (length xs) (length (xs ++ y ∷ ys)) ≡ true =
        ground (arith, length-append xs (y ∷ ys)) in
      rw (d, len-from_list, inside, remove_at-from_list y xs ys)
        (set_data-IsVec s (xs ++ ys) (from_list (xs ++ ys)) (pos (length (xs ++ y ∷ ys))) _ refl l
          (shrink (length (xs ++ y ∷ ys)) (length (xs ++ ys)) n h))

  -- `remove` from a vector at a negative index or one past the last element is an error that names
  -- the index and the length.
  pub vec_remove-beyond :
      {v : Value} (xs : List Value) (i : ℤ)
      → IsOutside i xs
      → IsVec v xs
      → vec_remove t (v ∷ int i ∷ []) ≡ err (vec_error (index_out_of_range i (length xs)))
  unfolding vec_remove data_of
  vec_remove-beyond xs (negsuc n) b (vec {s = s} d l) = rw (d, len-from_list)
  vec_remove-beyond xs (pos n) b (vec {s = s} d l) =
      let out : ltb n (length xs) ≡ false = ground arith in rw (d, len-from_list, out)

-- The element that is there, or the error that names the index and the length.
abbrev pub found : (Value → Value) → ℕ → List Value → Option Value → Answer Value
found f n xs none = err (vec_error (index_out_of_range (pos n) (length xs)))
found f n xs (some y) = ok (f y)

-- The element at an index.
abbrev pub element : (Value → Value) → ℕ → List Value → Answer Value
element f n xs = found f n xs (get_elem? xs n)

ok_or-found :
    (n : ℕ) (xs : List Value) (o : Option Value)
    → ok_or o (vec_error (index_out_of_range (pos n) (length xs))) ≡ found (λ y. y) n xs o
ok_or-found n xs none = refl
ok_or-found n xs (some y) = refl

ok_or-found_some :
    (n : ℕ) (xs : List Value) (o : Option Value)
    → (ok_or o (vec_error (index_out_of_range (pos n) (length xs))) >>= λ v. ok (make_some v))
      ≡ found make_some n xs o
ok_or-found_some n xs none = refl
ok_or-found_some n xs (some y) = refl

-- `get_value` of a vector answers the element at an index, and an error at an index past the last element or
-- a negative one.
pub vec_get_value-IsVec :
    {v : Value} (xs : List Value) (n : ℕ)
    → IsVec v xs
    → (vec_get_value (v ∷ int (pos n) ∷ []) ≡ element (λ y. y) n xs)
      × (vec_get_value (v ∷ int (negsuc n) ∷ [])
          ≡ err (vec_error (index_out_of_range (negsuc n) (length xs))))
unfolding vec_get_value data_of
vec_get_value-IsVec xs n (vec d l) = (
  rw (d, get-from_list, len-from_list) (ok_or-found n xs (get_elem? xs n)),
  rw (d, len-from_list),
)

-- `get` answers `some` of the element at an index and `none` at a negative index, but at an index
-- past the last element it is the error of `get_value`, and not `none`.
pub vec_get-IsVec :
    {v : Value} (xs : List Value) (n : ℕ)
    → IsVec v xs
    → (vec_get (v ∷ int (pos n) ∷ []) ≡ element make_some n xs)
      × (vec_get (v ∷ int (negsuc n) ∷ []) ≡ ok make_none)
unfolding vec_get data_of
vec_get-IsVec xs n (vec d l) =
    (rw (d, get-from_list, len-from_list) (ok_or-found_some n xs (get_elem? xs n)), rw d)

-- `clear` of a vector answers a vector with no elements.
pub vec_clear-IsVec :
    {v : Value} {xs : List Value}
    → IsVec v xs
    → (v' : Value) × (vec_clear (v ∷ []) ≡ ok v') × IsVec v' []
unfolding vec_clear data_of
vec_clear-IsVec {xs = xs} (vec {s = s} d l) = rw d (
    set_data-IsVec s [] empty (pos (length xs)) (λ n. ok (pos 0)) (unfold from_list in refl) l refl)

get_elem?-append : (xs ys : List Value) (x : Value) → get_elem? (xs ++ x ∷ ys) (length xs) ≡ some x
get_elem?-append [] ys x = refl
get_elem?-append (y ∷ xs) ys x = get_elem?-append xs ys x

element-append :
    (xs ys : List Value) (x : Value) → element (λ y. y) (length xs) (xs ++ x ∷ ys) ≡ ok x
element-append xs ys x = rw (get_elem?-append xs ys x) refl

-- The calls of `push` for the values, one after the other.
unfoldable pub push_all : Target → List Value → Value → Answer Value
push_all t [] v = ok v
push_all t (x ∷ xs) v = do v₁ ← vec_push t (v ∷ x ∷ []); push_all t xs v₁

push_all-IsVec :
    (t : Target) (xs ys : List Value) {v : Value}
    → length (xs ++ ys) < 2 ^ 63
    → IsVec v xs
    → (v' : Value) × (push_all t ys v ≡ ok v') × IsVec v' (xs ++ ys)
unfolding push_all
push_all-IsVec t xs [] h w = (_, refl, rw (append-nil xs) w)
push_all-IsVec t xs (y ∷ ys) {v = v} h w =
    let few : length xs + 1 < 2 ^ 63 = omega (arith, h, length-append xs (y ∷ ys)) in
    let (v₁, p, w₁) = vec_push-IsVec t y few w in
    let same = append_assoc xs (y ∷ []) ys in
    let (v₂, q, w₂) = push_all-IsVec t (xs ++ y ∷ []) ys (rw same h) w₁ in
    (v₂, rw p q, rw (← same) w₂)

-- A vector made by `new` and filled by `push` with fewer than 2^63 values, one after the other: every
-- call succeeds, `len` answers the number of the values, and `get_value` at the index of each value
-- answers that value.
pub vec_new-push_all :
    (t : Target) (xs ys : List Value) (x : Value)
    → length (xs ++ x ∷ ys) < 2 ^ 63
    → (v₀ : Value) × (v : Value) × (vec_new [] ≡ ok v₀)
      × (push_all t (xs ++ x ∷ ys) v₀ ≡ ok v)
      × (vec_len (v ∷ []) ≡ ok (int (pos (length (xs ++ x ∷ ys)))))
      × (vec_get_value (v ∷ int (pos (length xs)) ∷ []) ≡ ok x)
vec_new-push_all t xs ys x h =
    let (v₀, p, w₀) = vec_new-IsVec in
    let (v, q, w) = push_all-IsVec t [] (xs ++ x ∷ ys) h w₀ in
    (
      v₀,
      v,
      p,
      q,
      vec_len-IsVec w,
      (vec_get_value-IsVec (xs ++ x ∷ ys) (length xs) w).0 ∙ element-append xs ys x,
    )
