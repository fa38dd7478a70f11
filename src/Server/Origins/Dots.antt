-- ===== src/Server/Origins/Dots.antt =====
-- Texts of numbers and dots under the tests of `IsLocalDashboardOrigin` of api-server/Program.cs.
use aether_lens.Prelude.{
  ℕ, ◌<◌, ◌≡◌, refl, ap, ap₂, sym, ◌∙◌, ◌&&◌, Bool-cases, inl, inr, [], ◌∷◌, ◌++◌, map, All, Text,
  text_eq, text_eq_iff, ◌==◌, ==_iff, arith,
}
use aether_lens.Number.{number_text}
use aether_lens.Number.Decimal.{IsDigits, read_from, read_from-number_text}
use aether_lens.Server.Origins.{fold_case, starts}

-- A component of an address and what follows it.
pub starts-dot :
    (q p s rest : Text)
    → IsDigits q
    → IsDigits s
    → starts (q ++ b'.' ∷ p) (s ++ b'.' ∷ rest) ≡ (text_eq q s && starts p rest)
unfolding text_eq
starts-dot [] p [] rest hq hs = refl
starts-dot [] p (c ∷ s) rest hq ((low, high), hs) = ground arith
starts-dot (d ∷ q) p [] rest ((low, high), hq) hs = ground arith
starts-dot (d ∷ q) p (c ∷ s) rest (hd, hq) (hc, hs) = ground (arith, starts-dot q p s rest hq hs)

pub text_eq-dot :
    (s rest q p : Text)
    → IsDigits s
    → IsDigits q
    → text_eq (s ++ b'.' ∷ rest) (q ++ b'.' ∷ p) ≡ (text_eq s q && text_eq rest p)
unfolding text_eq
text_eq-dot [] rest [] p hs hq = refl
text_eq-dot [] rest (c ∷ q) p hs ((low, high), hq) = ground arith
text_eq-dot (d ∷ s) rest [] p ((low, high), hs) hq = ground arith
text_eq-dot (d ∷ s) rest (c ∷ q) p (hd, hs) (hc, hq) = ground (arith, text_eq-dot s rest q p hs hq)

-- Two numbers are printed alike only if they are the same.
pub text_eq-number_text : (m n : ℕ) → text_eq (number_text m) (number_text n) ≡ (m == n)
text_eq-number_text m n = elim (Bool-cases (m == n)) [
  | inl same ↦ rw same ((text_eq_iff _ _).1 (ap number_text ((==_iff m n).0 same)))
  | inr other ↦ elim (Bool-cases (text_eq (number_text m) (number_text n))) [
    | inl e ↦
        let read : m ≡ n =
          sym (read_from-number_text m)
          ∙ (ap (read_from 0) ((text_eq_iff _ _).0 e) ∙ read_from-number_text n) in
        absurd (ground (arith, read))
    | inr e ↦ rw (e, other)
  ]
]

-- Digits and dots have no case.
pub map-fold_case : (s : Text) → All (λ c. c < b'A') s → map fold_case s ≡ s
map-fold_case [] h = refl
map-fold_case (c ∷ s) (k, h) = ap₂ ◌∷◌ (ground arith) (map-fold_case s h)
