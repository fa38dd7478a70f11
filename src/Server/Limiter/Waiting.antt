-- ===== src/Server/Limiter/Waiting.antt =====
-- A client of api-server/Middleware/RateLimitMiddleware.cs that has waited.
use aether_lens.Prelude.{
  ℕ, ◌-◌, ◌<◌, ◌≡◌, refl, ap, sym, ◌∙◌, true, false, Bool-cases, inl, inr, List, [], ◌∷◌, ◌++◌, All,
  ltb, arith, Text,
}
use mathlib.Core.Path.{subst}
use aether_lens.Server.Limiter.{Request, default_limit, window_size, run}
use aether_lens.Server.Limiter.Decisions.{Ordered, count_since, reference, Ordered-prefix}
use aether_lens.Server.Limiter.Clients.{
  concerns, times_of, decisions_of, no_windows, decisions_of-reference,
}

count_since-none : (cutoff : ℕ) (q : List ℕ) → All (λ t. t < cutoff) q → count_since cutoff q ≡ 0
count_since-none cutoff [] h = refl
count_since-none cutoff (t ∷ q) (k, h) = ground (arith, count_since-none cutoff q h)

All-snoc : (n t : ℕ) (q : List ℕ) → t < n → All (λ t. t < n) q → All (λ t. t < n) (q ++ t ∷ [])
All-snoc n t [] k h = (k, tt)
All-snoc n t (u ∷ q) k (l, h) = (l, All-snoc n t q k h)

-- A time after the whole window of every earlier one.
reference-last :
    (limit window : ℕ) (past times : List ℕ) (now : ℕ)
    → 0 < limit
    → All (λ t. t < now - window) past
    → All (λ t. t < now - window) times
    → reference limit window past (times ++ now ∷ [])
      ≡ reference limit window past times ++ true ∷ []
unfolding reference
reference-last limit window past [] now pos h k =
    rw (count_since-none (now - window) past h) (ap (◌∷ []) (ground arith))
reference-last limit window past (t ∷ times) now pos h (k, ks) =
    elim (Bool-cases (ltb (count_since (t - window) past) limit)) [
      | inl e ↦ rw e (
          ap (true ∷◌) (
            reference-last limit window (past ++ t ∷ []) times now pos
              (All-snoc (now - window) t past k h) ks))
      | inr e ↦ rw e (ap (false ∷◌) (reference-last limit window past times now pos h ks))
    ]

times_of-append :
    (key : Text) (rs : List Request) (r : Request)
    → concerns key r ≡ true
    → times_of key (rs ++ r ∷ []) ≡ times_of key rs ++ r.now ∷ []
times_of-append key [] r h = rw h
times_of-append key (s ∷ rs) r h = elim (Bool-cases (concerns key s)) [
  | inl own ↦ rw own (ap (s.now ∷◌) (times_of-append key rs r h))
  | inr other ↦ rw other (times_of-append key rs r h)
]

-- An API request of a client that comes more than a minute after all its earlier ones is accepted,
-- whatever was answered before.
pub decisions_of-waiting :
    (key : Text) (rs : List Request) (r : Request)
    → concerns key r ≡ true
    → Ordered 0 (times_of key (rs ++ r ∷ []))
    → All (λ t. t < r.now - window_size) (times_of key rs)
    → decisions_of key (rs ++ r ∷ []) (run (rs ++ r ∷ []) no_windows)
      ≡ decisions_of key rs (run rs no_windows) ++ true ∷ []
decisions_of-waiting key rs r own after h =
    let before =
      Ordered-prefix 0 (times_of key rs) (r.now ∷ [])
        (subst (Ordered 0) (times_of-append key rs r own) after) in
    decisions_of-reference key (rs ++ r ∷ []) after
    ∙ (ap (reference default_limit window_size []) (times_of-append key rs r own)
        ∙ (reference-last default_limit window_size [] (times_of key rs) r.now (omega arith) tt h
            ∙ ap (◌++ true ∷ []) (sym (decisions_of-reference key rs before))))
