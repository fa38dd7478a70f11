-- ===== src/Clock/Layout.antt =====
-- The text of web-dashboard/src/components/UtcClock.tsx for a time in the layout of `toISOString`.
use aether_lens.Prelude.{
  ℕ, ◌≡◌, refl, ap, Bool, true, false, not, ◌&&◌, [], ◌∷◌, ◌++◌, append_assoc, arith, All, Text,
  codes, ◌==◌,
}
use aether_lens.Clock.{replace_first, before, clock_text}

-- The text does not hold the character.
abbrev Without : ℕ → Text → Type 0
Without c s = All (λ d. (d == c) ≡ false) s

-- A text whose characters all pass the test.
unfoldable pub without : ℕ → Text → Bool
without c [] = true
without c (d ∷ s) = not (d == c) && without c s

All_by_test : (c : ℕ) (s : Text) → without c s ≡ true → Without c s
unfolding without
All_by_test c [] h = tt
All_by_test c (d ∷ s) h = (ground arith, All_by_test c s (ground arith))

replace_first-append :
    (old new : ℕ) (s t : Text) → Without old s → replace_first old new (s ++ old ∷ t) ≡ s ++ new ∷ t
unfolding replace_first
replace_first-append old new [] t h = ground arith
replace_first-append old new (c ∷ s) t (p, h) =
    rw p (ap (◌∷◌ c) (replace_first-append old new s t h))

before-append : (stop : ℕ) (s t : Text) → Without stop s → before stop (s ++ stop ∷ t) ≡ s
unfolding before
before-append stop [] t h = ground arith
before-append stop (c ∷ s) t (p, h) = rw p (ap (◌∷◌ c) (before-append stop s t h))

Without-append : (c : ℕ) (s t : Text) → Without c s → Without c t → Without c (s ++ t)
Without-append c [] t h k = k
Without-append c (d ∷ s) t (p, h) k = (p, Without-append c s t h k)

-- Of a time `<date>T<time>.<rest>` whose date holds neither "T" nor "." and whose time of day holds no
-- ".", the clock shows the date, a space and the time of day, and then "UTC".
pub clock_text-iso :
    (date time rest : Text)
    → without b'T' date ≡ true
    → without b'.' date ≡ true
    → without b'.' time ≡ true
    → clock_text (date ++ b'T' ∷ (time ++ b'.' ∷ rest)) ≡ (date ++ b' ' ∷ time) ++ codes " UTC"
unfolding clock_text
clock_text-iso date time rest h k l =
    ap (λ s. s ++ codes " UTC")
      (rw
        (
          replace_first-append b'T' b' ' date (time ++ b'.' ∷ rest) (All_by_test b'T' date h),
          ← append_assoc date (b' ' ∷ time) (b'.' ∷ rest),
        )
        (before-append b'.' (date ++ b' ' ∷ time) rest (
          Without-append b'.' date (b' ' ∷ time) (All_by_test b'.' date k)
            (refl, All_by_test b'.' time l))))
