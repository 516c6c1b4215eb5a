-- ===== src/Base/Decimal.antt =====
-- How `format!` writes an unsigned number: its decimal digits.
use Prim.Native.Nat.{ℕ, zero, suc, ◌+◌, ◌-◌, ◌*◌, ◌/◌, ◌%◌, ◌≤◌, ◌<◌}
use Prim.Native.String.{String}
use Prim.Native.Char.{Char, code}
use mathlib.Core.Path.{◌≡◌, refl, sym, ap, ◌∙◌}
use mathlib.Core.Logic.{inl, inr}
use native.Mathlib.Omega.{arith}
use pictophone.Base.Tests.{◌==◌, if◌then◌else◌, Bool-cases}

-- The character that stands so far into a text.
unfoldable pub nth : ℕ → String → Char
nth d String.[] = "0"
nth zero (String.◌∷◌ c s) = c
nth (suc d) (String.◌∷◌ c s) = nth d s

unfoldable pub digit : ℕ → Char
digit d = nth d "0123456789"

-- The digits of `n` in front of a text, on fuel; `n` itself is enough, since a tenth is less.
unfoldable pub digits_before : ℕ → ℕ → String → String
digits_before zero n after = after
digits_before (suc fuel) n after =
    let more = digits_before fuel (n / 10) (String.◌∷◌ (digit (n % 10)) after) in
    if n == 0 then after else more

unfoldable pub decimal : ℕ → String
decimal n = if n == 0 then "0" else digits_before n n ""

-- The number that a text spells behind `n`.
value_after : ℕ → String → ℕ
value_after n String.[] = n
value_after n (String.◌∷◌ c s) = value_after (n * 10 + (code c - b'0')) s

code-digit : (d : ℕ) → d < 10 → code (digit d) - b'0' ≡ d
unfolding digit nth
code-digit zero h = refl
code-digit (suc zero) h = refl
code-digit (suc (suc zero)) h = refl
code-digit (suc (suc (suc zero))) h = refl
code-digit (suc (suc (suc (suc zero)))) h = refl
code-digit (suc (suc (suc (suc (suc zero))))) h = refl
code-digit (suc (suc (suc (suc (suc (suc zero)))))) h = refl
code-digit (suc (suc (suc (suc (suc (suc (suc zero))))))) h = refl
code-digit (suc (suc (suc (suc (suc (suc (suc (suc zero)))))))) h = refl
code-digit (suc (suc (suc (suc (suc (suc (suc (suc (suc zero))))))))) h = refl
code-digit (suc (suc (suc (suc (suc (suc (suc (suc (suc (suc d)))))))))) h = absurd (omega arith)

value_last :
    (n : ℕ) (after : String)
    → value_after (n / 10) (String.◌∷◌ (digit (n % 10)) after) ≡ value_after n after
unfolding value_after
value_last n after =
    let back : n / 10 * 10 + (code (digit (n % 10)) - b'0') ≡ n =
      omega (arith, code-digit (n % 10) (omega arith)) in
    ap (λ m. value_after m after) back

value-digits_before :
    (fuel n : ℕ) (after : String)
    → n ≤ fuel
    → value_after 0 (digits_before fuel n after) ≡ value_after n after
unfolding digits_before
value-digits_before zero n after h = ap (λ m. value_after m after) (omega arith)
value-digits_before (suc fuel) n after h = elim (Bool-cases (n == 0)) [
  | inl none_left ↦ rw none_left (ap (λ m. value_after m after) (ground arith))
  | inr some_left ↦ rw some_left (
      value-digits_before fuel (n / 10) (String.◌∷◌ (digit (n % 10)) after) (ground arith)
      ∙ value_last n after)
]

value-decimal : (n : ℕ) → value_after 0 (decimal n) ≡ n
unfolding decimal value_after
value-decimal n = elim (Bool-cases (n == 0)) [
  | inl is_zero ↦ rw is_zero (ground arith)
  | inr positive ↦ rw positive (value-digits_before n n "" (omega arith))
]

pub decimal_inj : (m n : ℕ) → decimal m ≡ decimal n → m ≡ n
decimal_inj m n h = sym (value-decimal m) ∙ ap (value_after 0) h ∙ value-decimal n
