-- ===== src/Base/Result.antt =====
-- `anyhow::Result` of the asynchronous code: a value or an error.
use mathlib.Core.Path.{◌≡◌, refl}
use mathlib.Core.List.{List, [], ◌∷◌, map}

pub data Result (E A : Type 0) : Type 0 where
  ok : A → Result E A
  err : E → Result E A

infixl 5 ◌>>=◌
abbrev pub ◌>>=◌ : {E A B : Type 0} → Result E A → (A → Result E B) → Result E B
err e >>= rest = err e
ok x >>= rest = rest x

pub >>=-eq-ok :
    {E A B : Type 0} (before : Result E A) (rest : A → Result E B) {end : B}
    → (before >>= rest) ≡ ok end
    → (x : A) × (before ≡ ok x) × (rest x ≡ ok end)
>>=-eq-ok (err e) rest done = cc
>>=-eq-ok (ok x) rest done = (x, refl, done)

-- `util::end_after_error` of be/server/src/util/mod.rs: nothing comes after the first error.
abbrev pub end_after_error : {E A : Type 0} → List (Result E A) → List (Result E A)
end_after_error [] = []
end_after_error (ok a ∷ l) = ok a ∷ end_after_error l
end_after_error (err e ∷ l) = err e ∷ []

-- The values, with the errors left out.
abbrev pub values : {E A : Type 0} → List (Result E A) → List A
values [] = []
values (ok a ∷ l) = a ∷ values l
values (err e ∷ l) = values l

pub values-map_ok : (E : Type 0) {A : Type 0} (xs : List A) → values {E = E} (map ok xs) ≡ xs
values-map_ok E [] = refl
values-map_ok E (x ∷ xs) = rw (values-map_ok E xs) refl
