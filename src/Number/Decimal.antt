-- ===== src/Number/Decimal.antt =====
-- The decimal digits of an integer, read back.
use aether_lens.Prelude.{
  length, All, ◌≤◌, ℕ, zero, suc, ◌+◌, ◌-◌, ◌*◌, ◌/◌, ◌%◌, ◌<◌, ◌≡◌, ap, ◌∙◌, arith, Text, ◌∷◌, [],
  ltb, Bool-cases, inl, inr,
}
use aether_lens.Number.{digits_from, number_text}

-- The integer that a row of digits stands for, after `acc`.
abbrev pub read_from : ℕ → Text → ℕ
read_from acc [] = acc
read_from acc (c ∷ s) = read_from (acc * 10 + (c - b'0')) s

read_from-digits_from :
    (fuel n : ℕ) (out : Text) → n < fuel → read_from 0 (digits_from fuel n out) ≡ read_from n out
unfolding digits_from
read_from-digits_from zero n out h = absurd (omega arith)
read_from-digits_from (suc fuel) n out h = elim (Bool-cases (ltb n 10)) [
  | inl last ↦ rw last (ap (λ (k : ℕ). read_from k out) (omega arith))
  | inr more ↦ rw more (
      read_from-digits_from fuel (n / 10) ((b'0' + n % 10) ∷ out) (ground arith)
      ∙ ap (λ (k : ℕ). read_from k out) (omega arith))
]

-- Printing a number and reading its digits gives the number.
pub read_from-number_text : (n : ℕ) → read_from 0 (number_text n) ≡ n
unfolding number_text
read_from-number_text n = read_from-digits_from (suc n) n [] (omega arith)

-- Every character is a decimal digit.
abbrev pub IsDigits : Text → Type 0
IsDigits s = All (λ c. (b'0' ≤ c) × (c ≤ b'9')) s

digits_from-IsDigits : (fuel n : ℕ) (out : Text) → IsDigits out → IsDigits (digits_from fuel n out)
unfolding digits_from
digits_from-IsDigits zero n out h = h
digits_from-IsDigits (suc fuel) n out h = elim (Bool-cases (ltb n 10)) [
  | inl last ↦ rw last ((omega arith, ground arith), h)
  | inr more ↦
      rw more
        (digits_from-IsDigits fuel (n / 10) ((b'0' + n % 10) ∷ out) ((omega arith, omega arith), h))
]

pub number_text-IsDigits : (n : ℕ) → IsDigits (number_text n)
unfolding number_text
number_text-IsDigits n = digits_from-IsDigits (suc n) n [] tt

length-digits_from : (fuel n : ℕ) (out : Text) → length out ≤ length (digits_from fuel n out)
unfolding digits_from
length-digits_from zero n out = omega arith
length-digits_from (suc fuel) n out =
    ground (arith, length-digits_from fuel (n / 10) ((b'0' + n % 10) ∷ out))

pub number_text-pos : (n : ℕ) → 0 < length (number_text n)
unfolding number_text digits_from
number_text-pos n = ground (arith, length-digits_from n (n / 10) ((b'0' + n % 10) ∷ []))
