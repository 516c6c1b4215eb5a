-- ===== src/Base/Outcome.antt =====
-- What a Rust function that may panic returns: `Ok`, `Err`, or no return at all.
use mathlib.Core.Path.{◌≡◌, refl}
use mathlib.Core.Logic.{◌≢◌, ◌⊎◌, inl, inr}
use mathlib.Core.Bool.{Bool, true, false}
use mathlib.Core.Option.{Option, none, some}
use pictophone.Base.Tests.{if◌then◌else◌}

pub data Outcome (E A : Type 0) : Type 0 where
  ok : A → Outcome E A
  err : E → Outcome E A
  panic : Outcome E A

-- The `?` operator; a panic ends everything.
infixl 5 ◌>>=◌ ◌>>◌
abbrev pub ◌>>=◌ : {E A B : Type 0} → Outcome E A → (A → Outcome E B) → Outcome E B
panic >>= rest = panic
err e >>= rest = err e
ok x >>= rest = rest x

abbrev pub ◌>>◌ : {E B : Type 0} → Outcome E (Unit {0}) → Outcome E B → Outcome E B
m >> k = m >>= λ _. k

-- `if test { return Err(e) }`
abbrev pub fail_if : {E : Type 0} → Bool → E → Outcome E (Unit {0})
fail_if test e = if test then err e else ok tt

-- `Option::unwrap`
abbrev pub unwrap : {E A : Type 0} → Option A → Outcome E A
unwrap none = panic
unwrap (some a) = ok a

-- `Option::ok_or_else`
abbrev pub ok_or : {E A : Type 0} → Option A → E → Outcome E A
ok_or none e = err e
ok_or (some a) e = ok a

pub Outcome-cases :
    {E A : Type 0} (r : Outcome E A) → r ≢ panic → ((e : E) × (r ≡ err e)) ⊎ ((a : A) × (r ≡ ok a))
Outcome-cases (ok a) h = inr (a, refl)
Outcome-cases (err e) h = inl (e, refl)
Outcome-cases panic h = absurd (h refl)

abbrev pub is_ok : {E A : Type 0} → Outcome E A → Bool
is_ok (ok a) = true
is_ok (err e) = false
is_ok panic = false

-- What ran before a successful end had succeeded.
pub >>=-eq-ok :
    {E A B : Type 0} (before : Outcome E A) (rest : A → Outcome E B) {end : B}
    → (before >>= rest) ≡ ok end
    → (x : A) × (before ≡ ok x) × (rest x ≡ ok end)
>>=-eq-ok (err e) rest done = cc
>>=-eq-ok panic rest done = cc
>>=-eq-ok (ok x) rest done = (x, refl, done)
