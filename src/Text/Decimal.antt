-- ===== src/Text/Decimal.antt =====
-- The decimal and the hexadecimal form of numbers, as `to_string`, `{}` and `{:02X}` write them.
use memguard_agent.Base.{
  ℕ, zero, suc, ◌+◌, ◌-◌, ◌*◌, ◌/◌, ◌%◌, ◌≤◌, ◌<◌, ◌≡◌, sym, ap, ◌∙◌, inl, inr, true, false, [],
  ◌∷◌, arith, ltb, if◌then◌else◌, Bool-cases, All,
}
use memguard_agent.Text.{Text}

-- The digits of `n` in front of `rest`. A number has at most as many digits as its value plus one.
unfoldable pub digits_onto : ℕ → ℕ → Text → Text
digits_onto zero n rest = rest
digits_onto (suc fuel) n rest = elim (ltb n 10) [
  | true ↦ (48 + n) ∷ rest
  | false ↦ digits_onto fuel (n / 10) ((48 + n % 10) ∷ rest)
]

-- `to_string`
unfoldable pub to_string : ℕ → Text
unfolding digits_onto
to_string n = digits_onto (n + 1) n []

-- The number that decimal digits stand for, after the digits read so far.
unfoldable pub value_from : ℕ → Text → ℕ
value_from n [] = n
value_from n (c ∷ s) = value_from (n * 10 + (c - 48)) s

value_from-digits_onto :
    (fuel n : ℕ) (rest : Text)
    → n < fuel
    → value_from 0 (digits_onto fuel n rest) ≡ value_from n rest
unfolding digits_onto value_from
value_from-digits_onto zero n rest h = absurd (omega arith)
value_from-digits_onto (suc fuel) n rest h = elim (Bool-cases (ltb n 10)) [
  | inl t ↦ rw (t, digits_onto) (ap (λ (k : ℕ). value_from k rest) (omega arith))
  | inr f ↦
      rw (f, digits_onto)
        (value_from-digits_onto fuel (n / 10) ((48 + n % 10) ∷ rest) (ground arith)
          ∙ ap (λ (k : ℕ). value_from k rest) (ground arith))
]

-- A number can be read back from its decimal form.
pub value_from-to_string : (n : ℕ) → value_from 0 (to_string n) ≡ n
unfolding to_string value_from
value_from-to_string n = value_from-digits_onto (n + 1) n [] (omega arith)

pub to_string-injective : (m n : ℕ) → to_string m ≡ to_string n → m ≡ n
to_string-injective m n h =
    sym (value_from-to_string m) ∙ ap (value_from 0) h ∙ value_from-to_string n

-- A digit of `{:02X}`.
unfoldable pub hex_digit : ℕ → ℕ
hex_digit d = if ltb d 10 then 48 + d else 55 + d

-- `{:02X}` of a byte
unfoldable pub hex_byte : ℕ → Text
unfolding hex_digit
hex_byte b = hex_digit (b / 16) ∷ hex_digit (b % 16) ∷ []

digits_onto-All :
    (fuel n : ℕ) (rest : Text)
    → All (λ c. 48 ≤ c) rest
    → All (λ c. 48 ≤ c) (digits_onto fuel n rest)
unfolding digits_onto
digits_onto-All zero n rest h = h
digits_onto-All (suc fuel) n rest h = elim (Bool-cases (ltb n 10)) [
  | inl t ↦ rw (t, digits_onto) (omega arith, h)
  | inr f ↦
      rw (f, digits_onto) (digits_onto-All fuel (n / 10) ((48 + n % 10) ∷ rest) (omega arith, h))
]

-- A decimal form holds no character below the digits, such as white space.
pub to_string-All : (n : ℕ) → All (λ c. 48 ≤ c) (to_string n)
unfolding to_string
to_string-All n = digits_onto-All (n + 1) n [] tt
