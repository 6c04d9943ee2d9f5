-- ===== src/ExprFlow/Storage.antt =====
-- Storages of anonymous functions whose ids come from a counter.
use smpl_mirror.Common.{
  ℕ, suc, ◌≤◌, ◌≡◌, refl, [], ◌∷◌, none, some, arith, lookup_id, insert_id, ◌==◌, false,
}
use smpl_mirror.Ast.{AnonymousFn}
use smpl_mirror.ExprFlow.{AnonStorage, insert_fn, append_fns}

-- The ids are in increasing order, from the first number on and below the second.
abbrev pub InRange : ℕ → ℕ → AnonStorage → Type 0
InRange lo hi [] = lo ≤ hi
InRange lo hi ((id, f) ∷ m) = (lo ≤ id) × InRange (suc id) hi m

InRange-le : (lo hi : ℕ) (m : AnonStorage) → InRange lo hi m → lo ≤ hi
InRange-le lo hi [] r = r
InRange-le lo hi ((j, f) ∷ m) (le, r) = omega (arith, InRange-le (suc j) hi m r)

InRange-weaken : (lo mid hi : ℕ) (m : AnonStorage) → InRange lo mid m → mid ≤ hi → InRange lo hi m
InRange-weaken lo mid hi [] r h = omega arith
InRange-weaken lo mid hi ((j, f) ∷ m) (le, r) h = (le, InRange-weaken (suc j) mid hi m r h)

lookup_id-InRange :
    (lo hi id : ℕ) (m : AnonStorage) → InRange lo hi m → hi ≤ id → lookup_id id m ≡ none
unfolding lookup_id
lookup_id-InRange lo hi id [] r h = refl
lookup_id-InRange lo hi id ((j, f) ∷ m) (le, r) h =
    ground (arith, InRange-le (suc j) hi m r, lookup_id-InRange (suc j) hi id m r h)

insert_id-InRange :
    (lo hi id : ℕ) (f : AnonymousFn) (m : AnonStorage)
    → InRange lo hi m
    → hi ≤ id
    → InRange lo (suc id) (insert_id id f m)
unfolding insert_id
insert_id-InRange lo hi id f [] r h = (omega arith, omega arith)
insert_id-InRange lo hi id f ((j, g) ∷ m) (le, r) h =
    let other : (j == id) ≡ false = ground (arith, InRange-le (suc j) hi m r) in
    rw other (le, insert_id-InRange (suc j) hi id f m r h)

-- A function with an id from the counter is inserted.
pub insert_fn-InRange :
    (lo hi id : ℕ) (f : AnonymousFn) (m : AnonStorage)
    → InRange lo hi m
    → hi ≤ id
    → (m' : AnonStorage) × (insert_fn id f m ≡ some m') × InRange lo (suc id) m'
unfolding insert_fn
insert_fn-InRange lo hi id f m r h = (
  insert_id id f m,
  rw (insert_fn, lookup_id-InRange lo hi id m r h),
  insert_id-InRange lo hi id f m r h,
)

-- A storage that was made later is appended.
pub append_fns-InRange :
    (lo mid hi : ℕ) (m fns : AnonStorage)
    → InRange lo mid m
    → InRange mid hi fns
    → (m' : AnonStorage) × (append_fns m fns ≡ some m') × InRange lo hi m'
unfolding append_fns
append_fns-InRange lo mid hi m [] r s = (m, refl, InRange-weaken lo mid hi m r s)
append_fns-InRange lo mid hi m ((id, f) ∷ fns) r (le, s) =
    let (m₁, p, r₁) = insert_fn-InRange lo mid id f m r le in
    let (m₂, q, r₂) = append_fns-InRange lo (suc id) hi m₁ fns r₁ s in
    (m₂, rw (append_fns, p, q), r₂)
