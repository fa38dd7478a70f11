-- ===== src/Prelude/Every.antt =====
-- Predicates on every element of a list, through the operations on lists.
use Prim.Native.Nat.{ℕ, zero, suc}
use mathlib.Core.Path.{◌≡◌}
use mathlib.Core.Logic.{inl, inr}
use mathlib.Core.Bool.{Bool, true}
use mathlib.Core.List.{List, [], ◌∷◌, ◌++◌}
use aether_lens.Prelude.Tests.{Bool-cases}
use aether_lens.Prelude.Lists.{All, take, filter}

module _ {ℓ κ} {A : Type ℓ} (P : A → Type κ) where
  pub All-take : (n : ℕ) (xs : List A) → All P xs → All P (take n xs)
  All-take zero xs h = tt
  All-take (suc n) [] h = tt
  All-take (suc n) (x ∷ xs) (p, h) = (p, All-take n xs h)

  pub All-filter : (f : A → Bool) (xs : List A) → All P xs → All P (filter f xs)
  unfolding filter
  All-filter f [] h = tt
  All-filter f (x ∷ xs) (p, h) = elim (Bool-cases (f x)) [
    | inl keep ↦ rw keep (p, All-filter f xs h)
    | inr drop ↦ rw drop (All-filter f xs h)
  ]

pub All-append {ℓ κ} :
    {A : Type ℓ} (P : A → Type κ) (xs ys : List A) → All P xs → All P ys → All P (xs ++ ys)
All-append P [] ys h k = k
All-append P (x ∷ xs) ys (p, h) k = (p, All-append P xs ys h k)

pub All-weaken {ℓ κ μ} :
    {A : Type ℓ} (P : A → Type κ) (Q : A → Type μ)
    → ((x : A) → P x → Q x)
    → (xs : List A) → All P xs
    → All Q xs
All-weaken P Q f [] h = tt
All-weaken P Q f (x ∷ xs) (p, h) = (f x p, All-weaken P Q f xs h)

pub All-filter_self {ℓ} :
    {A : Type ℓ} (f : A → Bool) (xs : List A) → All (λ x. f x ≡ true) (filter f xs)
unfolding filter
All-filter_self f [] = tt
All-filter_self f (x ∷ xs) = elim (Bool-cases (f x)) [
  | inl keep ↦ rw keep (keep, All-filter_self f xs)
  | inr drop ↦ rw drop (All-filter_self f xs)
]
