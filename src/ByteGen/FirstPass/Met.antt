-- ===== src/ByteGen/FirstPass/Met.antt =====
-- The ids of the loops that are met when the code of a tree (smpl/src/code_gen/byte_gen/
-- first_pass.rs) is put in line: which ids the lists of them lack.
use smpl_mirror.Common.{ℕ, ◌<◌, ◌≤◌, ◌≢◌, ◌⊎◌, inl, inr, List, ◌∷◌, arith}
use smpl_mirror.ByteGen.ThirdPass.Total.{NotIn}

abbrev pub Outside : ℕ → ℕ → ℕ → Type 0
Outside lo hi j = (j < lo) ⊎ (hi ≤ j)

pub Outside-narrow :
    (lo hi lo' hi' j : ℕ) → lo ≤ lo' → hi' ≤ hi → Outside lo hi j → Outside lo' hi' j
Outside-narrow lo hi lo' hi' j le le' (inl before) = inl (omega arith)
Outside-narrow lo hi lo' hi' j le le' (inr after) = inr (omega arith)

pub Outside-≢ : (lo hi id j : ℕ) → lo ≤ id → id < hi → Outside lo hi j → id ≢ j
Outside-≢ lo hi id j le lt (inl before) = omega arith
Outside-≢ lo hi id j le lt (inr after) = omega arith

-- The second list has no id that the first lacks but those from the first number on and below the
-- second.
pub record Adds (lo hi : ℕ) (ids ids' : List ℕ) : Type 0 where
  pub adds : (j : ℕ) → Outside lo hi j → NotIn j ids → NotIn j ids'

pub record Avoids (lo hi : ℕ) (ids : List ℕ) : Type 0 where
  pub avoids : (j : ℕ) → lo ≤ j → j < hi → NotIn j ids

pub Adds-refl : {lo hi : ℕ} {ids : List ℕ} → Adds lo hi ids ids
Adds-refl = record { adds = λ j out n. n }

pub Adds-widen :
    {lo hi lo' hi' : ℕ} {ids ids' : List ℕ}
    → lo' ≤ lo
    → hi ≤ hi'
    → Adds lo hi ids ids'
    → Adds lo' hi' ids ids'
Adds-widen {lo} {hi} {lo'} {hi'} le le' a = record {
  adds = λ j out n. a.adds j (Outside-narrow lo' hi' lo hi j le le' out) n;
}

pub Adds-trans :
    {lo hi : ℕ} {ids ids' ids'' : List ℕ}
    → Adds lo hi ids ids'
    → Adds lo hi ids' ids''
    → Adds lo hi ids ids''
Adds-trans a b = record { adds = λ j out n. b.adds j out (a.adds j out n) }

pub Adds-cons : {lo hi id : ℕ} {ids : List ℕ} → lo ≤ id → id < hi → Adds lo hi ids (id ∷ ids)
Adds-cons {lo} {hi} {id} le lt = record { adds = λ j out n. (Outside-≢ lo hi id j le lt out, n) }

pub Avoids-narrow :
    {lo hi lo' hi' : ℕ} {ids : List ℕ} → lo ≤ lo' → hi' ≤ hi → Avoids lo hi ids → Avoids lo' hi' ids
Avoids-narrow le le' a = record {
  avoids = λ j after before. a.avoids j (omega arith) (omega arith);
}

pub Avoids-cons :
    {lo hi id : ℕ} {ids : List ℕ} → id < lo → Avoids lo hi ids → Avoids lo hi (id ∷ ids)
Avoids-cons lt a = record { avoids = λ j after before. (omega arith, a.avoids j after before) }

pub Avoids-Adds :
    {lo mid hi : ℕ} {ids ids' : List ℕ}
    → Adds lo mid ids ids'
    → Avoids mid hi ids
    → Avoids mid hi ids'
Avoids-Adds a b = record {
  avoids = λ j after before. a.adds j (inr after) (b.avoids j after before);
}

pub Avoids-Adds_before :
    {lo mid hi : ℕ} {ids ids' : List ℕ}
    → Adds mid hi ids ids'
    → Avoids lo mid ids
    → Avoids lo mid ids'
Avoids-Adds_before a b = record {
  avoids = λ j after before. a.adds j (inl before) (b.avoids j after before);
}
