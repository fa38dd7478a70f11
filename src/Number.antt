-- ===== src/Number.antt =====
-- The numbers of web-dashboard/src: a JavaScript number that is not negative and below 2 ^ 53 is
-- `mantissa / 2 ^ scale`. Division rounds to 53 significant bits, ties to even, and `toFixed`
-- rounds the exact value, ties upwards, as ECMAScript has them.
pub mod Rounding
pub mod Decimal
use aether_lens.Prelude.{
  ℕ, zero, suc, ◌+◌, ◌*◌, ◌/◌, ◌%◌, ◌^◌, Bool, ltb, leb, ◌==◌, if◌then◌else◌, Text, ◌∷◌, [], ◌++◌,
}

pub record Double : Type 0 where
  pub mantissa : ℕ
  pub scale : ℕ

abbrev pub integer : ℕ → Double
integer n = record { mantissa = n; scale = 0 }

-- `a <= b`, by the exact values.
unfoldable pub is_le : Double → Double → Bool
is_le a b = leb (a.mantissa * 2 ^ b.scale) (b.mantissa * 2 ^ a.scale)

-- The number of doublings, at most `fuel`, until the quotient has 53 significant bits.
scale_for : ℕ → ℕ → ℕ → ℕ
scale_for zero num den = 0
scale_for (suc fuel) num den =
    let more = suc (scale_for fuel (2 * num) den) in if leb (2 ^ 52 * den) num then 0 else more

-- The integer nearest to `num / den`, the even one of two.
unfoldable pub round_half_even : ℕ → ℕ → ℕ
round_half_even num den =
    if ltb (2 * (num % den)) den
    then num / den
    else if ltb den (2 * (num % den))
    then num / den + 1
    else if num / den % 2 == 0
    then num / den
    else num / den + 1

-- The number nearest to `num / den`. The smallest scale of a double is 1074.
unfoldable pub quotient : ℕ → ℕ → Double
unfolding scale_for round_half_even
quotient num den =
    let k = scale_for 1074 num den in
    record { mantissa = round_half_even (num * 2 ^ k) den; scale = k }

-- The decimal digits of `n` before `out`. The fuel counts the digits.
digits_from : ℕ → ℕ → Text → Text
digits_from zero n out = out
digits_from (suc fuel) n out =
    let rest = digits_from fuel (n / 10) ((b'0' + n % 10) ∷ out) in
    if ltb n 10 then (b'0' + n) ∷ out else rest

-- `String(n)`: a number has fewer digits than `n + 1`.
unfoldable pub number_text : ℕ → Text
unfolding digits_from
number_text n = digits_from (suc n) n []

-- The last `places` digits of `n`, with leading zeros.
unfoldable pub padded : ℕ → ℕ → Text → Text
padded zero n out = out
padded (suc places) n out = padded places (n / 10) ((b'0' + n % 10) ∷ out)

-- The integer that `x.toFixed(places)` shows with a point before its last digits.
unfoldable pub fixed_digits : ℕ → Double → ℕ
fixed_digits places x = (2 * (x.mantissa * 10 ^ places) + 2 ^ x.scale) / (2 * 2 ^ x.scale)

unfoldable pub fixed_text : ℕ → ℕ → Text
unfolding number_text padded
fixed_text places n = number_text (n / 10 ^ places) ++ b'.' ∷ padded places n []

unfoldable pub to_fixed : ℕ → Double → Text
unfolding fixed_text fixed_digits
to_fixed places x = fixed_text places (fixed_digits places x)
