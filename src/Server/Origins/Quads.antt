-- ===== src/Server/Origins/Quads.antt =====
-- `IsLocalDashboardOrigin` of api-server/Program.cs on hosts that are IPv4 addresses.
use aether_lens.Prelude.{
  ℕ, zero, suc, ◌<◌, ◌≡◌, refl, ap, ◌∙◌, Bool, true, false, not, ◌&&◌, ◌||◌, Bool-cases, inl, inr,
  some, [], ◌∷◌, ◌++◌, map, length, All, Text, codes, text_eq, leb, ◌==◌, ==_iff, arith,
}
use aether_lens.Number.{number_text}
use aether_lens.Number.Decimal.{IsDigits, number_text-IsDigits, number_text-pos}
use aether_lens.Server.Origins.{
  fold_case, starts, starts_with, equals, is_local_host, is_local_dashboard_origin,
}
use aether_lens.Server.Origins.Dots.{starts-dot, text_eq-dot, text_eq-number_text, map-fold_case}

-- The address with the four numbers.
abbrev pub quad : ℕ → ℕ → ℕ → ℕ → Text
quad a b c d =
    number_text a ++ b'.' ∷ (number_text b ++ b'.' ∷ (number_text c ++ b'.' ∷ number_text d))

IsLow : Text → Type 0
IsLow s = All (λ c. c < b'A') s

IsLow-append : (s t : Text) → IsLow s → IsLow t → IsLow (s ++ t)
unfolding IsLow
IsLow-append [] t hs ht = ht
IsLow-append (c ∷ s) t (h, hs) ht = (h, IsLow-append s t hs ht)

IsDigits-IsLow : (s : Text) → IsDigits s → IsLow s
unfolding IsLow
IsDigits-IsLow [] h = tt
IsDigits-IsLow (c ∷ s) ((low, high), h) = (omega arith, IsDigits-IsLow s h)

number_text-IsLow : (n : ℕ) → IsLow (number_text n)
number_text-IsLow n = IsDigits-IsLow (number_text n) (number_text-IsDigits n)

IsLow-dot : (n : ℕ) (t : Text) → IsLow t → IsLow (number_text n ++ b'.' ∷ t)
unfolding IsLow
IsLow-dot n t h = IsLow-append (number_text n) (b'.' ∷ t) (number_text-IsLow n) (omega arith, h)

map-fold_case-quad : (a b c d : ℕ) → map fold_case (quad a b c d) ≡ quad a b c d
unfolding IsLow
map-fold_case-quad a b c d =
    map-fold_case (quad a b c d)
      (IsLow-dot a _ (IsLow-dot b _ (IsLow-dot c _ (number_text-IsLow d))))

module _ (a b c d : ℕ) where
  -- A prefix of one number, one of two, and one that ends within the second.
  prefix_one :
      (p q : Text) (m : ℕ)
      → map fold_case p ≡ number_text m ++ b'.' ∷ q
      → starts_with (quad a b c d) p
        ≡ ((m == a) && starts q (number_text b ++ b'.' ∷ (number_text c ++ b'.' ∷ number_text d)))
  prefix_one p q m e = rw (
    map-fold_case-quad a b c d,
    e,
    starts-dot (number_text m) q (number_text a) _ (number_text-IsDigits m)
        (number_text-IsDigits a),
    text_eq-number_text m a,
  )

  prefix_two :
      (p : Text) (m n : ℕ)
      → map fold_case p ≡ number_text m ++ b'.' ∷ (number_text n ++ b'.' ∷ [])
      → starts_with (quad a b c d) p ≡ ((m == a) && (n == b))
  prefix_two p m n e =
      prefix_one p _ m e
      ∙ rw
          (
            starts-dot (number_text n) [] (number_text b) (number_text c ++ b'.' ∷ number_text d)
                (number_text-IsDigits n) (number_text-IsDigits b),
            text_eq-number_text n b,
          )
          (ground arith)

  prefix_digit :
      (p : Text) (m digit : ℕ)
      → map fold_case p ≡ number_text m ++ b'.' ∷ (digit ∷ [])
      → starts_with (quad a b c d) p ≡ ((m == a) && starts (digit ∷ []) (number_text b))
  prefix_digit p m digit e =
      prefix_one p _ m e ∙ ap ((m == a) &&◌) (first (number_text b) _ (number_text-pos b))
    where
      first :
          (s rest : Text) → 0 < length s → starts (digit ∷ []) (s ++ rest) ≡ starts (digit ∷ []) s
      first [] rest h = absurd (omega arith)
      first (x ∷ s) rest h = refl

  exactly :
      (k l m n : ℕ)
      → text_eq (quad a b c d) (quad k l m n) ≡ ((a == k) && ((b == l) && ((c == m) && (d == n))))
  exactly k l m n =
      let A = number_text-IsDigits in
      rw (
        text_eq-dot (number_text a) _ (number_text k) _ (A a) (A k),
        text_eq-dot (number_text b) _ (number_text l) _ (A b) (A l),
        text_eq-dot (number_text c) _ (number_text m) _ (A c) (A m),
        text_eq-number_text a k,
        text_eq-number_text b l,
        text_eq-number_text c m,
        text_eq-number_text d n,
      )

  not_localhost : equals (quad a b c d) (codes "localhost") ≡ false
  unfolding text_eq
  not_localhost =
      rw (map-fold_case-quad a b c d) (letter (number_text a) _ (number_text-IsDigits a))
    where
      letter : (s rest : Text) → IsDigits s → text_eq (s ++ b'.' ∷ rest) (codes "localhost") ≡ false
      letter [] rest h = refl
      letter (x ∷ s) rest ((low, high), h) = ground arith

-- The hosts that are accepted: those of the private networks 10.0.0.0/8, 172.16.0.0/12 and
-- 192.168.0.0/16, the address 127.0.0.1, and of 172.0.0.0/8 also those with a second number 2 or
-- from 200 to 255.
abbrev pub is_accepted : ℕ → ℕ → ℕ → ℕ → Bool
is_accepted a b c d =
    (a == 127 && (b == 0 && (c == 0 && d == 1)))
    || (a == 10)
    || (a == 192 && b == 168)
    || (a == 172 && (leb 16 b && leb b 31 || b == 2 || leb 200 b))

all_below : (ℕ → Bool) → ℕ → Bool
all_below f zero = true
all_below f (suc n) = f n && all_below f n

all_below-lt : (f : ℕ → Bool) (n k : ℕ) → all_below f n ≡ true → k < n → f k ≡ true
unfolding all_below
all_below-lt f zero k h lt = absurd (omega arith)
all_below-lt f (suc n) k h lt = elim (Bool-cases (f n)) [
  | inl e ↦ elim (Bool-cases (k == n)) [
    | inl same ↦ ap f ((==_iff k n).0 same) ∙ e
    | inr other ↦ all_below-lt f n k (rw e at h) (ground arith)
  ]
  | inr e ↦ absurd (ground (arith, e, h))
]

iffb : Bool → Bool → Bool
iffb true b = b
iffb false b = not b

iffb_eq : (a b : Bool) → iffb a b ≡ true → a ≡ b
unfolding iffb
iffb_eq true true h = refl
iffb_eq false false h = refl
iffb_eq true false h = cc
iffb_eq false true h = cc

-- The second numbers of a host that begins with 172, by the chain of the code.
seconds : ℕ → Bool
seconds b =
    (16 == b)
    || (17 == b)
    || (18 == b)
    || (19 == b)
    || starts (codes "2") (number_text b)
    || (30 == b)
    || (31 == b)

seconds_lem : (b : ℕ) → b < 256 → seconds b ≡ (leb 16 b && leb b 31 || b == 2 || leb 200 b)
unfolding seconds iffb all_below number_text
seconds_lem b h = iffb_eq _ _ (
    all_below-lt (λ b. iffb (seconds b) (leb 16 b && leb b 31 || b == 2 || leb 200 b)) 256 b refl h)

-- The chain, test by test.
is_local_host-chain :
    (a b c d : ℕ)
    → is_local_host (quad a b c d) ≡ (
        false
        || ((a == 127) && ((b == 0) && ((c == 0) && (d == 1))))
        || ((192 == a) && (168 == b))
        || ((10 == a) && true)
        || ((172 == a) && (16 == b))
        || ((172 == a) && (17 == b))
        || ((172 == a) && (18 == b))
        || ((172 == a) && (19 == b))
        || ((172 == a) && starts (codes "2") (number_text b))
        || ((172 == a) && (30 == b))
        || ((172 == a) && (31 == b)))
unfolding is_local_host number_text
is_local_host-chain a b c d = rw (
  not_localhost a b c d,
  exactly a b c d 127 0 0 1,
  prefix_two a b c d (codes "192.168.") 192 168 refl,
  prefix_one a b c d (codes "10.") [] 10 refl,
  prefix_two a b c d (codes "172.16.") 172 16 refl,
  prefix_two a b c d (codes "172.17.") 172 17 refl,
  prefix_two a b c d (codes "172.18.") 172 18 refl,
  prefix_two a b c d (codes "172.19.") 172 19 refl,
  prefix_digit a b c d (codes "172.2") 172 b'2' refl,
  prefix_two a b c d (codes "172.30.") 172 30 refl,
  prefix_two a b c d (codes "172.31.") 172 31 refl,
)

is_local_host-quad : (a b c d : ℕ) → b < 256 → is_local_host (quad a b c d) ≡ is_accepted a b c d
unfolding seconds
is_local_host-quad a b c d h =
    let second = seconds_lem b h in
    elim (Bool-cases (a == 172)) [
      | inl net ↦
          let same : a ≡ 172 = (==_iff a 172).0 net in rw (is_local_host-chain a b c d, same) second
      | inr other ↦ rw (is_local_host-chain a b c d) (ground (arith, other))
    ]

-- An origin whose host is an IPv4 address, with a second number of at most 255, is accepted exactly
-- at the ports 3000 and 3001 and for the hosts of `is_accepted`.
pub is_local_dashboard_origin-quad :
    (a b c d port : ℕ)
    → b < 256
    → is_local_dashboard_origin (some (record { host = quad a b c d; port = port }))
      ≡ (is_accepted a b c d && (port == 3000 || port == 3001))
unfolding is_local_dashboard_origin
is_local_dashboard_origin-quad a b c d port h =
    ap (◌&& (port == 3000 || port == 3001)) (is_local_host-quad a b c d h)
