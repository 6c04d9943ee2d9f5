-- ===== src/Common/Results.antt =====
-- What a call in the source can do: return, return an error, or panic.
use mathlib.Core.Path.{◌≡◌, refl}
use mathlib.Core.Option.{Option, none, some}

pub data Outcome (E A : Type 0) : Type 0 where
  ok : A → Outcome E A
  err : E → Outcome E A
  panic : Outcome E A

-- `?`, with which an error or a panic ends the function.
infixl 5 ◌>>=◌ ◌>>◌
abbrev pub ◌>>=◌ : {E A B : Type 0} → Outcome E A → (A → Outcome E B) → Outcome E B
panic >>= rest = panic
err e >>= rest = err e
ok value >>= rest = rest value

abbrev pub ◌>>◌ : {E A B : Type 0} → Outcome E A → Outcome E B → Outcome E B
first >> second = first >>= λ ignored. second

-- `Option::unwrap` and `Option::expect`.
abbrev pub unwrapped : {E A : Type 0} → Option A → Outcome E A
unwrapped none = panic
unwrapped (some a) = ok a

-- `Option::ok_or`.
abbrev pub ok_or : {E A : Type 0} → Option A → E → Outcome E A
ok_or none e = err e
ok_or (some a) e = ok a

-- `Result::map_err`.
abbrev pub map_err : {E F A : Type 0} → (E → F) → Outcome E A → Outcome F A
map_err f (ok a) = ok a
map_err f (err e) = err (f e)
map_err f panic = panic

-- A chain that returns went through its first call.
pub >>=-eq-ok :
    {E A B : Type 0} (first : Outcome E A) (rest : A → Outcome E B) {result : B}
    → first >>= rest ≡ ok result
    → (value : A) × (first ≡ ok value) × (rest value ≡ ok result)
>>=-eq-ok panic rest returns = cc
>>=-eq-ok (err e) rest returns = cc
>>=-eq-ok (ok value) rest returns = (value, refl, returns)
