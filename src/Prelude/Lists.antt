-- ===== src/Prelude/Lists.antt =====
-- Lists measured by native numbers, under the library's names, and the JavaScript array methods
-- that the program calls on them.
use Prim.Native.Nat.{ℕ, zero, suc, ◌+◌, ◌-◌, ◌≤◌, min}
use mathlib.Core.Path.{◌≡◌, refl, sym, ap, subst}
use mathlib.Core.Bool.{Bool}
use mathlib.Core.List.{List, [], ◌∷◌, ◌++◌, map}
use mathlib.Core.Option
use mathlib.Core.Option.{Option, none, some}
use native.Mathlib.Omega.{arith}
use aether_lens.Prelude.Tests.{if◌then◌else◌}

-- A predicate on every element, by recursion.
abbrev pub All {ℓ κ} : {A : Type ℓ} → (A → Type κ) → List A → Type κ
All P [] = Unit
All P (x ∷ xs) = P x × All P xs

-- The predicate holds of the value, if there is one.
abbrev pub Each {ℓ κ} : {A : Type ℓ} → (A → Type κ) → Option A → Type κ
Each P none = Unit
Each P (some a) = P a

pub Each-map {ℓ κ μ} :
    {A : Type ℓ} {B : Type κ} (P : B → Type μ) (f : A → B) (o : Option A)
    → Each (λ a. P (f a)) o
    → Each P (Option.map f o)
Each-map P f none h = tt
Each-map P f (some a) h = h

pub Each-some {ℓ κ} :
    {A : Type ℓ} (P : A → Type κ) {o : Option A} {a : A} → o ≡ some a → Each P o → P a
Each-some P e h = subst (Each P) e h

module _ {ℓ} {A : Type ℓ} where
  abbrev pub length : List A → ℕ
  length [] = 0
  length (x ∷ xs) = suc (length xs)

  abbrev pub take : ℕ → List A → List A
  take zero xs = []
  take (suc n) [] = []
  take (suc n) (x ∷ xs) = x ∷ take n xs

  abbrev pub drop : ℕ → List A → List A
  drop zero xs = xs
  drop (suc n) [] = []
  drop (suc n) (x ∷ xs) = drop n xs

  abbrev pub head? : List A → Option A
  head? [] = none
  head? (x ∷ xs) = some x

  abbrev pub get_last? : List A → Option A
  get_last? [] = none
  get_last? (x ∷ []) = some x
  get_last? (x ∷ y ∷ ys) = get_last? (y ∷ ys)

  -- `xs.filter(p)`.
  unfoldable pub filter : (A → Bool) → List A → List A
  filter p [] = []
  filter p (x ∷ xs) = if p x then x ∷ filter p xs else filter p xs

  pub length-append : (xs ys : List A) → length (xs ++ ys) ≡ length xs + length ys
  length-append [] ys = omega arith
  length-append (x ∷ xs) ys = omega (arith, length-append xs ys)

pub length-map {ℓ κ} :
    {A : Type ℓ} {B : Type κ} (f : A → B) (xs : List A) → length (map f xs) ≡ length xs
length-map f [] = refl
length-map f (x ∷ xs) = ap suc (length-map f xs)

module _ {ℓ} {A : Type ℓ} where
  pub length-take : (n : ℕ) (xs : List A) → length (take n xs) ≡ min n (length xs)
  length-take zero xs = omega arith
  length-take (suc n) [] = omega arith
  length-take (suc n) (x ∷ xs) = omega (arith, length-take n xs)

  pub length-take-le : (n : ℕ) (xs : List A) → length (take n xs) ≤ n
  length-take-le n xs = omega (arith, length-take n xs)

  pub length-drop : (n : ℕ) (xs : List A) → length (drop n xs) ≡ length xs - n
  length-drop zero xs = omega arith
  length-drop (suc n) [] = omega arith
  length-drop (suc n) (x ∷ xs) = omega (arith, length-drop n xs)

  pub take-take : (n m : ℕ) (xs : List A) → n ≤ m → take n (take m xs) ≡ take n xs
  take-take zero m xs h = refl
  take-take (suc n) zero xs h = absurd (omega arith)
  take-take (suc n) (suc m) [] h = refl
  take-take (suc n) (suc m) (x ∷ xs) h = ap (◌∷◌ x) (take-take n m xs (omega arith))

  -- Cutting a list that is put behind another changes nothing before a nearer cut.
  pub take-append-take :
      (n m : ℕ) (xs ys : List A) → n ≤ m → take n (xs ++ take m ys) ≡ take n (xs ++ ys)
  take-append-take n m [] ys h = take-take n m ys h
  take-append-take zero m (x ∷ xs) ys h = refl
  take-append-take (suc n) m (x ∷ xs) ys h = ap (◌∷◌ x) (take-append-take n m xs ys (omega arith))

  pub drop-append : (n : ℕ) (xs ys : List A) → n ≤ length xs → drop n (xs ++ ys) ≡ drop n xs ++ ys
  drop-append zero xs ys h = refl
  drop-append (suc n) [] ys h = absurd (omega arith)
  drop-append (suc n) (x ∷ xs) ys h = drop-append n xs ys (omega arith)

  pub drop-drop : (m n k : ℕ) (xs : List A) → k ≡ n + m → drop m (drop n xs) ≡ drop k xs
  drop-drop m zero k xs h = ap (λ (j : ℕ). drop j xs) (omega arith)
  drop-drop zero (suc n) zero [] h = refl
  drop-drop zero (suc n) (suc k) [] h = refl
  drop-drop (suc m) (suc n) zero [] h = refl
  drop-drop (suc m) (suc n) (suc k) [] h = refl
  drop-drop m (suc n) zero (x ∷ xs) h = absurd (omega arith)
  drop-drop m (suc n) (suc k) (x ∷ xs) h = drop-drop m n k xs (omega arith)

module _ {ℓ} {A : Type ℓ} where
  -- The last `n` elements: `xs.slice(xs.length - n)`, or all where there are fewer.
  abbrev pub take_last : ℕ → List A → List A
  take_last n xs = drop (length xs - n) xs

  pub length-take_last-le : (n : ℕ) (xs : List A) → length (take_last n xs) ≤ n
  length-take_last-le n xs = omega (arith, length-drop (length xs - n) xs)

  pub take_last-append-take_last :
      (n : ℕ) (xs ys : List A) → take_last n (take_last n xs ++ ys) ≡ take_last n (xs ++ ys)
  take_last-append-take_last n xs ys =
      let k = length xs - n in
      let cut : drop k xs ++ ys ≡ drop k (xs ++ ys) = sym (drop-append k xs ys (omega arith)) in
      rw cut
        (drop-drop _ k _ (xs ++ ys) (omega (arith, length-drop k (xs ++ ys), length-append xs ys)))

  pub take_last_of_length-le : (n : ℕ) (xs : List A) → length xs ≤ n → take_last n xs ≡ xs
  take_last_of_length-le n xs h = ap (λ (k : ℕ). drop k xs) {y = 0} (omega arith)
