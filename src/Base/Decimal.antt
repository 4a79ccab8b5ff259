-- ===== src/Base/Decimal.antt =====
-- `String(n)` of a natural number, and that it tells numbers apart.
use Prim.Native.Nat.{ℕ, zero, suc, ◌+◌, ◌-◌, ◌*◌, ◌/◌, ◌%◌, ◌<◌, ◌≤◌}
use mathlib.Core.Path.{◌≡◌, sym, ap, ◌∙◌}
use mathlib.Core.Logic.{inl, inr}
use mathlib.Core.List.{[], ◌∷◌, ◌++◌, foldl, foldl-append}
use native.Mathlib.Omega.{arith}
use llm_stack.Base.Tests.{ltb, if◌then◌else◌, Bool-cases}
use llm_stack.Base.Texts.{Text}
use llm_stack.Base.Lists.{All, All-append}

-- The digits, with fuel for one division by ten each.
digits_from : ℕ → ℕ → Text
digits_from zero n = (48 + n % 10) ∷ []
digits_from (suc f) n =
    let front = digits_from f (n / 10) in
    if ltb n 10 then (48 + n) ∷ [] else front ++ (48 + n % 10) ∷ []

unfoldable pub decimal : ℕ → Text
unfolding digits_from
decimal n = digits_from n n

abbrev IsDigit : ℕ → Type 0
IsDigit c = (48 ≤ c) × (c < 58)

digits_from-All : (f n : ℕ) → All IsDigit (digits_from f n)
unfolding digits_from
digits_from-All zero n = omega arith
digits_from-All (suc f) n = elim (Bool-cases (ltb n 10)) [
  | inl small ↦ rw small (ground arith)
  | inr large ↦
      rw large
        (All-append IsDigit (digits_from f (n / 10)) _ (digits_from-All f (n / 10)) (omega arith))
]

add_digit : ℕ → ℕ → ℕ
add_digit v d = 10 * v + (d - 48)

value : Text → ℕ
value = foldl add_digit 0

value-snoc : (s : Text) (d : ℕ) → value (s ++ d ∷ []) ≡ 10 * value s + (d - 48)
unfolding value add_digit
value-snoc s d = rw foldl-append

value-digits_from : (f n : ℕ) → n < suc f → value (digits_from f n) ≡ n
unfolding digits_from
value-digits_from zero n h = unfold value add_digit in omega arith
value-digits_from (suc f) n h = elim (Bool-cases (ltb n 10)) [
  | inl small ↦ rw small (unfold value add_digit in ground arith)
  | inr large ↦
      rw (large, value-snoc (digits_from f (n / 10)) (48 + n % 10))
        (ground (arith, value-digits_from f (n / 10)))
]

-- Reading the digits gives the number back.
value-decimal : (n : ℕ) → value (decimal n) ≡ n
unfolding decimal
value-decimal n = value-digits_from n n (omega arith)

pub decimal-injective : (m n : ℕ) → decimal m ≡ decimal n → m ≡ n
decimal-injective m n e = sym (value-decimal m) ∙ ap value e ∙ value-decimal n

pub decimal_digits : (n : ℕ) → All (λ c. (48 ≤ c) × (c < 58)) (decimal n)
unfolding decimal
decimal_digits n = digits_from-All n n
