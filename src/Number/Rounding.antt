-- ===== src/Number/Rounding.antt =====
-- How far a rounded quotient and its printed digits lie from the exact value.
use native.Mathlib.Decide.{dec_le}
use native.Mathlib.Nat.{
  div-add-mod, mod-lt, pow-suc, mul-le-mul_left, mul-le-mul_right, le_of_mul-le-mul_left,
}
use aether_lens.Prelude.{
  ℕ, zero, suc, ◌+◌, ◌*◌, ◌/◌, ◌%◌, ◌^◌, ◌≤◌, ◌<◌, ◌==◌, ◌≡◌, refl, ap, ◌⊎◌, arith, ltb, leb,
  leb→le, Bool-cases, inl, inr,
}
use aether_lens.Number.{round_half_even, quotient, fixed_digits, scale_for}

-- `q` is within half a unit of `num / den`.
pub record Nearest (num den q : ℕ) : Type 0 where
  pub above : 2 * (den * q) ≤ 2 * num + den
  pub below : 2 * num ≤ 2 * (den * q) + den

module _ (num den : ℕ) where
  div-Nearest : 2 * (num % den) ≤ den → Nearest num den (num / den)
  div-Nearest h = omega (arith, div-add-mod num den)

  add_one-Nearest : 0 < den → den ≤ 2 * (num % den) → Nearest num den (num / den + 1)
  add_one-Nearest p h = omega (arith, div-add-mod num den, mod-lt num p)

  pub round_half_even-Nearest : 0 < den → Nearest num den (round_half_even num den)
  unfolding round_half_even
  round_half_even-Nearest p = elim (Bool-cases (ltb (2 * (num % den)) den)) [
    | inl less ↦ rw less (div-Nearest (ground arith))
    | inr rest ↦ elim (Bool-cases (ltb den (2 * (num % den)))) [
      | inl more ↦ rw (rest, more) (add_one-Nearest p (ground arith))
      | inr tie ↦ elim (Bool-cases (num / den % 2 == 0)) [
        | inl even ↦ rw (rest, tie, even) (div-Nearest (ground arith))
        | inr odd ↦ rw (rest, tie, odd) (add_one-Nearest p (ground arith))
      ]
    ]
  ]

-- The scale is either all of the fuel, or large enough for 53 significant bits.
scale_for_enough :
    (fuel num den : ℕ)
    → (scale_for fuel num den ≡ fuel) ⊎ (2 ^ 52 * den ≤ num * 2 ^ scale_for fuel num den)
unfolding scale_for
scale_for_enough zero num den = inl refl
scale_for_enough (suc fuel) num den = elim (Bool-cases (leb (2 ^ 52 * den) num)) [
  | inl enough ↦ rw enough (inr (omega (arith, leb→le _ _ enough)))
  | inr less ↦ rw less (elim (scale_for_enough fuel (2 * num) den) [
    | inl all ↦ inl (ap suc all)
    | inr more ↦ inr (rw (pow-suc 2 (scale_for fuel (2 * num) den)) (omega (arith, more)))
  ])
]

pow-ge-one : (k : ℕ) → 1 ≤ 2 ^ k
pow-ge-one zero = omega arith
pow-ge-one (suc k) = rw (pow-suc 2 k) (omega (arith, pow-ge-one k))

pow_mono : (j k : ℕ) → j ≤ k → 2 ^ j ≤ 2 ^ k
pow_mono zero k h = pow-ge-one k
pow_mono (suc j) zero h = absurd (omega arith)
pow_mono (suc j) (suc k) h =
    rw (pow-suc 2 j, pow-suc 2 k) (omega (arith, pow_mono j k (omega arith)))

-- A quotient below 2 ^ 46 has seven binary places or more.
scale-ge : (num den : ℕ) → 0 < den → num < 2 ^ 46 * den → 2 ^ 7 ≤ 2 ^ scale_for 1074 num den
scale-ge num den p h = elim (scale_for_enough 1074 num den) [
  | inl all ↦ rw all (pow_mono 7 1074 (omega arith))
  | inr enough ↦ elim (dec_le 7 (scale_for 1074 num den)) [
    | yes many ↦ pow_mono 7 (scale_for 1074 num den) many
    | no few ↦
        let k = scale_for 1074 num den in
        absurd (omega (arith, enough, mul-le-mul_left num (pow_mono k 6 (omega arith))))
  ]
]

-- Rounding a rounded quotient to hundredths: `d` is the scale's power of two, `m` the mantissa.
module _ (d m n num den : ℕ) (near : Nearest (num * d) den m) (wide : 100 ≤ d)
    (below : n * (2 * d) ≤ 2 * (m * 100) + d)
    (above : 2 * (m * 100) + d < n * (2 * d) + 2 * d) where
  close_above : n * den ≤ 100 * num + den
  close_above =
      le_of_mul-le-mul_left {k = 2 * d}
        (omega (arith, mul-le-mul_right den below, near.above, mul-le-mul_right den wide))
        (omega arith)

  close_below : 100 * num ≤ n * den + den
  close_below =
      le_of_mul-le-mul_left {k = 2 * d}
        (omega (arith, mul-le-mul_right den above, near.below, mul-le-mul_right den wide))
        (omega arith)

-- Two decimal places of a quotient below 2 ^ 46 are within a hundredth of the exact quotient.
pub record Close (num den n : ℕ) : Type 0 where
  pub above : n * den ≤ 100 * num + den
  pub below : 100 * num ≤ n * den + den

pub fixed_digits-Close :
    (num den : ℕ) → 0 < den → num < 2 ^ 46 * den → Close num den (fixed_digits 2 (quotient num den))
unfolding fixed_digits quotient
fixed_digits-Close num den p h =
    let d = 2 ^ scale_for 1074 num den in
    let m = round_half_even (num * d) den in
    let n = (2 * (m * 100) + d) / (2 * d) in
    let near : Nearest (num * d) den m = round_half_even-Nearest (num * d) den p in
    let wide : 100 ≤ d = omega (arith, scale-ge num den p h) in
    let split : 2 * d * n + (2 * (m * 100) + d) % (2 * d) ≡ 2 * (m * 100) + d =
      div-add-mod (2 * (m * 100) + d) (2 * d) in
    let less : (2 * (m * 100) + d) % (2 * d) < 2 * d = mod-lt (2 * (m * 100) + d) (omega arith) in
    let below : n * (2 * d) ≤ 2 * (m * 100) + d = omega arith in
    let above : 2 * (m * 100) + d < n * (2 * d) + 2 * d = omega arith in
    record {
      above = close_above d m n num den near wide below above;
      below = close_below d m n num den near wide below above;
    }
