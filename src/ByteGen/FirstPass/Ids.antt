-- ===== src/ByteGen/FirstPass/Ids.antt =====
-- Maps from the ids of loops and branches (smpl/src/code_gen/byte_gen/first_pass.rs), by their
-- lookups: which ids are keys, and what a change leaves as it is.
use smpl_mirror.Common.{
  ℕ, suc, List, ◌≤◌, ◌<◌, ◌≡◌, ◌≢◌, ◌∙◌, refl, none, some, arith, lookup_id, insert_id,
  lookup_id-insert_id,
}

abbrev Frames {ℓ} : Type ℓ → Type ℓ
Frames A = List (ℕ × A)

-- No id from the first number on and below the second is a key.
pub record Free {ℓ} {A : Type ℓ} (lo hi : ℕ) (m : Frames A) : Type ℓ where
  pub free : (id : ℕ) → lo ≤ id → id < hi → lookup_id id m ≡ none

-- The maps agree on these ids.
pub record Agree {ℓ} {A : Type ℓ} (lo hi : ℕ) (m m' : Frames A) : Type ℓ where
  pub agree : (id : ℕ) → lo ≤ id → id < hi → lookup_id id m' ≡ lookup_id id m

-- The maps agree outside of these ids.
pub record Same {ℓ} {A : Type ℓ} (lo hi : ℕ) (m m' : Frames A) : Type ℓ where
  pub below : (id : ℕ) → id < lo → lookup_id id m' ≡ lookup_id id m
  pub above : (id : ℕ) → hi ≤ id → lookup_id id m' ≡ lookup_id id m

-- The second map is the first with the value under the key.
pub record Puts {ℓ} {A : Type ℓ} (id : ℕ) (v : A) (m m' : Frames A) : Type ℓ where
  pub at : lookup_id id m' ≡ some v
  pub other : (j : ℕ) → j ≢ id → lookup_id j m' ≡ lookup_id j m

pub insert-Puts {ℓ} :
    {A : Type ℓ} (id : ℕ) (v : A) (m : List (ℕ × A)) → Puts id v m (insert_id id v m)
insert-Puts id v m = record {
  at = ground (arith, lookup_id-insert_id id id v m);
  other = λ j other. ground (arith, lookup_id-insert_id id j v m, other);
}

module _ {ℓ} {A : Type ℓ} where
  pub Puts-trans :
      {id : ℕ} {v v' : A} {m m' m'' : Frames A}
      → Puts id v m m'
      → Puts id v' m' m''
      → Puts id v' m m''
  Puts-trans p q = record { at = q.at; other = λ j other. q.other j other ∙ p.other j other }

  -- A change of one id is a change inside of any ids with it.
  pub Puts-Same :
      {id lo hi : ℕ} {v : A} {m m' : Frames A}
      → lo ≤ id
      → id < hi
      → Puts id v m m'
      → Same lo hi m m'
  Puts-Same le lt p = record {
    below = λ j before. p.other j (omega arith);
    above = λ j after. p.other j (omega arith);
  }

  pub Puts-Same_point : {id : ℕ} {v : A} {m m' : Frames A} → Puts id v m m' → Same id (suc id) m m'
  Puts-Same_point p = Puts-Same (omega arith) (omega arith) p

  pub Same-refl : {lo hi : ℕ} {m : Frames A} → Same lo hi m m
  Same-refl = record { below = λ j before. refl; above = λ j after. refl }

  pub Same-trans :
      {lo hi : ℕ} {m m' m'' : Frames A} → Same lo hi m m' → Same lo hi m' m'' → Same lo hi m m''
  Same-trans p q = record {
    below = λ j before. q.below j before ∙ p.below j before;
    above = λ j after. q.above j after ∙ p.above j after;
  }

  pub Same-widen :
      {lo hi lo' hi' : ℕ} {m m' : Frames A}
      → lo' ≤ lo
      → hi ≤ hi'
      → Same lo hi m m'
      → Same lo' hi' m m'
  Same-widen le le' p = record {
    below = λ j before. p.below j (omega arith);
    above = λ j after. p.above j (omega arith);
  }

  pub Free-narrow :
      {lo hi lo' hi' : ℕ} {m : Frames A} → lo ≤ lo' → hi' ≤ hi → Free lo hi m → Free lo' hi' m
  Free-narrow le le' f = record { free = λ j after before. f.free j (omega arith) (omega arith) }

  pub Agree-narrow :
      {lo hi lo' hi' : ℕ} {m m' : Frames A}
      → lo ≤ lo'
      → hi' ≤ hi
      → Agree lo hi m m'
      → Agree lo' hi' m m'
  Agree-narrow le le' f = record { agree = λ j after before. f.agree j (omega arith) (omega arith) }

  -- Ids behind those of a change are as free as before, and so are those in front of them.
  pub Free-behind :
      {lo mid hi : ℕ} {m m' : Frames A} → Same lo mid m m' → Free mid hi m → Free mid hi m'
  Free-behind p f = record { free = λ j after before. p.above j after ∙ f.free j after before }

  pub Free-front :
      {lo mid hi : ℕ} {m m' : Frames A} → Same mid hi m m' → Free lo mid m → Free lo mid m'
  Free-front p f = record { free = λ j after before. p.below j before ∙ f.free j after before }

  -- A map that agrees with the changed one agrees with the old one on the ids in front of the
  -- change, and on those behind it.
  pub Agree-front :
      {lo mid hi : ℕ} {m m' m'' : Frames A}
      → Same mid hi m m'
      → Agree lo mid m' m''
      → Agree lo mid m m''
  Agree-front p f = record { agree = λ j after before. f.agree j after before ∙ p.below j before }

  pub Agree-behind :
      {lo mid hi : ℕ} {m m' m'' : Frames A}
      → Same lo mid m m'
      → Agree mid hi m' m''
      → Agree mid hi m m''
  Agree-behind p f = record { agree = λ j after before. f.agree j after before ∙ p.above j after }
