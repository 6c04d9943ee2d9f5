-- ===== src/Machine/Value.antt =====
-- smpli/src/value.rs: values, structures and arrays. Every value that a cell of the source holds
-- was made by `ReferableValue::new` of a value cloned in depth, and `Executor::fetch` drops its
-- shared reference before the instruction ends, so that no two cells are ever shared: a value is
-- a tree, and a write through a reference is an update of that tree.
pub mod Laws
use smpl_mirror.Common.{
  ℕ, zero, suc, String, List, [], ◌∷◌, Option, none, some, Bool, true, false, ◌&&◌, ◌==◌,
  if◌then◌else◌, str_eq,
}
use smpl_mirror.Common.Int.{ℤ, eq_ℤ}

-- `f64` arithmetic on bit patterns, as the hardware does it.
pub record Float : Type 0 where
  pub add : ℕ → ℕ → ℕ
  pub sub : ℕ → ℕ → ℕ
  pub mul : ℕ → ℕ → ℕ
  pub div : ℕ → ℕ → ℕ
  pub rem : ℕ → ℕ → ℕ
  pub neg : ℕ → ℕ
  pub equal : ℕ → ℕ → Bool
  pub less : ℕ → ℕ → Bool
  pub less_eq : ℕ → ℕ → Bool

-- smpli/src/vm_i.rs
pub record FnHandle : Type 0 where
  pub mod_id : ℕ
  pub fn_id : ℕ

mutual
  pub data Value : Type 0 where
    int : ℤ → Value
    float : ℕ → Value
    bool : Bool → Value
    string : String → Value
    array : Array → Value
    function : FnHandle → Value
    struct : Struct → Value
    unit : Value

  pub data Array : Type 0 where
    empty : Array
    item : Value → Array → Array

  pub data Struct : Type 0 where
    end : Struct
    entry : String → Value → Struct → Struct

-- `Array` is a `Vec` of cells.
unfoldable pub len : Array → ℕ
len empty = 0
len (item v a) = suc (len a)

unfoldable pub get : ℕ → Array → Option Value
get i empty = none
get zero (item v a) = some v
get (suc i) (item v a) = get i a

unfoldable pub push : Value → Array → Array
push x empty = item x empty
push x (item v a) = item v (push x a)

-- `Vec::insert` panics past the end.
unfoldable pub insert_at : ℕ → Value → Array → Option Array
insert_at zero x a = some (item x a)
insert_at (suc i) x empty = none
insert_at (suc i) x (item v a) = elim (insert_at i x a) [ none ↦ none | some b ↦ some (item v b) ]

-- `Vec::remove` panics past the end.
unfoldable pub remove_at : ℕ → Array → Option Array
remove_at i empty = none
remove_at zero (item v a) = some a
remove_at (suc i) (item v a) = elim (remove_at i a) [ none ↦ none | some b ↦ some (item v b) ]

-- The write of a cell.
unfoldable pub set_at : ℕ → Value → Array → Option Array
set_at i x empty = none
set_at zero x (item v a) = some (item x a)
set_at (suc i) x (item v a) = elim (set_at i x a) [ none ↦ none | some b ↦ some (item v b) ]

unfoldable pub from_list : List Value → Array
from_list [] = empty
from_list (v ∷ vs) = item v (from_list vs)

-- `Struct` is a `HashMap` of cells.
unfoldable pub get_field : String → Struct → Option Value
get_field k end = none
get_field k (entry j v s) = if str_eq j k then some v else get_field k s

unfoldable pub set_field : String → Value → Struct → Struct
set_field k v end = entry k v end
set_field k v (entry j w s) = if str_eq j k then entry k v s else entry j w (set_field k v s)

unfoldable pub field_count : Struct → ℕ
field_count end = 0
field_count (entry k v s) = suc (field_count s)

abbrev pub handle_eq : FnHandle → FnHandle → Bool
handle_eq h k = (h.mod_id == k.mod_id) && (h.fn_id == k.fn_id)

-- The derived `PartialEq`, and that of `Vec` and `HashMap`: as many fields, and each field of
-- the one equal to the other's.
unfoldable mutual
  pub value_eq : Float → Value → Value → Bool
  value_eq fl (int a) (int b) = eq_ℤ a b
  value_eq fl (float a) (float b) = fl.equal a b
  value_eq fl (bool true) (bool b) = b
  value_eq fl (bool false) (bool true) = false
  value_eq fl (bool false) (bool false) = true
  value_eq fl (string a) (string b) = str_eq a b
  value_eq fl (array a) (array b) = array_eq fl a b
  value_eq fl (function a) (function b) = handle_eq a b
  value_eq fl (struct a) (struct b) = (field_count a == field_count b) && fields_in fl a b
  value_eq fl unit unit = true
  value_eq fl _ _ = false

  pub array_eq : Float → Array → Array → Bool
  array_eq fl empty empty = true
  array_eq fl (item v a) (item w b) = value_eq fl v w && array_eq fl a b
  array_eq fl _ _ = false

  pub fields_in : Float → Struct → Struct → Bool
  fields_in fl end t = true
  fields_in fl (entry k v s) t =
      elim (get_field k t) [ none ↦ false | some w ↦ value_eq fl v w ] && fields_in fl s t
