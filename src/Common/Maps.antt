-- ===== src/Common/Maps.antt =====
-- A Rust `HashMap` as an association list with one entry for each key: `insert` replaces the
-- value of a key that is there. Keys are texts (names) or numbers (ids).
use Prim.Native.Nat.{ℕ}
use Prim.Native.String.{String}
use mathlib.Core.Path.{◌≡◌, refl}
use mathlib.Core.List.{List, [], ◌∷◌}
use mathlib.Core.Option.{Option, none, some}
use native.Mathlib.Omega.{arith}
use text.Mathlib.Text.{◌==◌ as str_eq}
use text.Mathlib.TextEquality.{eq_iff}
use smpl_mirror.Common.Tests.{◌==◌, if◌then◌else◌}

module _ {ℓ} {V : Type ℓ} where
  unfoldable pub lookup : String → List (String × V) → Option V
  lookup name [] = none
  lookup name ((other, found) ∷ rest) =
      let later = lookup name rest in if str_eq other name then some found else later

  unfoldable pub insert : String → V → List (String × V) → List (String × V)
  insert name new [] = (name, new) ∷ []
  insert name new ((other, old) ∷ rest) =
      let later = insert name new rest in
      if str_eq other name then (name, new) ∷ rest else (other, old) ∷ later

  -- Behind an insert, the key has the new value, and the others are as they were.
  pub lookup-insert :
      (name wanted : String) (new : V) (store : List (String × V))
      → lookup wanted (insert name new store)
        ≡ (if str_eq name wanted then some new else lookup wanted store)
  unfolding insert lookup
  lookup-insert name wanted new ((other, old) ∷ rest) = ground (
    arith,
    lookup-insert name wanted new rest,
    eq_iff other wanted,
    eq_iff other name,
    eq_iff name wanted,
  )
  lookup-insert name wanted new [] = refl

  -- The same map with ids for keys.
  unfoldable pub lookup_id : ℕ → List (ℕ × V) → Option V
  lookup_id id [] = none
  lookup_id id ((other, found) ∷ rest) =
      let later = lookup_id id rest in if other == id then some found else later

  unfoldable pub insert_id : ℕ → V → List (ℕ × V) → List (ℕ × V)
  insert_id id new [] = (id, new) ∷ []
  insert_id id new ((other, old) ∷ rest) =
      let later = insert_id id new rest in
      if other == id then (id, new) ∷ rest else (other, old) ∷ later

  pub lookup_id-insert_id :
      (id wanted : ℕ) (new : V) (store : List (ℕ × V))
      → lookup_id wanted (insert_id id new store)
        ≡ (if id == wanted then some new else lookup_id wanted store)
  unfolding insert_id lookup_id
  lookup_id-insert_id id wanted new ((other, old) ∷ rest) =
      ground (arith, lookup_id-insert_id id wanted new rest)
  lookup_id-insert_id id wanted new [] = refl
