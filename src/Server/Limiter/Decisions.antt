-- ===== src/Server/Limiter/Decisions.antt =====
-- `SlidingWindow` of api-server/Middleware/RateLimitMiddleware.cs against a count over all requests
-- that it ever accepted.
use aether_lens.Prelude.{
  ℕ, suc, ◌-◌, ◌≤◌, ◌≡◌, refl, ap, sym, Bool, true, false, List, [], ◌∷◌, ◌++◌, length, arith, ltb,
  Bool-cases, inl, inr, if◌then◌else◌, append_assoc,
}
use aether_lens.Server.Limiter.{evict_before, evict, try_consume}

-- How many of the times are not before the cutoff.
abbrev pub count_since : ℕ → List ℕ → ℕ
count_since cutoff [] = 0
count_since cutoff (t ∷ q) =
    let rest = count_since cutoff q in if ltb t cutoff then rest else suc rest

-- The decisions of a window on a row of request times.
unfoldable pub consume_all : ℕ → ℕ → List ℕ → List ℕ → List Bool
unfolding try_consume
consume_all limit window q [] = []
consume_all limit window q (now ∷ times) =
    let (admits, kept) = try_consume now limit window q in
    admits ∷ consume_all limit window kept times

-- The same from the list of all accepted times, none forgotten: a request is accepted if fewer than
-- `limit` were accepted since the window began.
unfoldable pub reference : ℕ → ℕ → List ℕ → List ℕ → List Bool
reference limit window past [] = []
reference limit window past (now ∷ times) =
    let admits = ltb (count_since (now - window) past) limit in
    admits ∷ reference limit window (if admits then past ++ now ∷ [] else past) times

-- The times do not decrease, from a first bound on.
abbrev pub Ordered : ℕ → List ℕ → Type 0
Ordered low [] = Unit
Ordered low (t ∷ q) = (low ≤ t) × Ordered t q

count_since-all :
    (cutoff low : ℕ) (q : List ℕ) → cutoff ≤ low → Ordered low q → count_since cutoff q ≡ length q
count_since-all cutoff low [] h o = refl
count_since-all cutoff low (t ∷ q) h (k, o) =
    ground (arith, count_since-all cutoff t q (omega arith) o)

length-evict_before :
    (cutoff low : ℕ) (q : List ℕ)
    → Ordered low q
    → length (evict_before cutoff q) ≡ count_since cutoff q
unfolding evict_before
length-evict_before cutoff low [] o = refl
length-evict_before cutoff low (t ∷ q) (k, o) = elim (Bool-cases (ltb t cutoff)) [
  | inl e ↦ rw e (length-evict_before cutoff t q o)
  | inr e ↦ rw e (ap suc (sym (count_since-all cutoff t q (ground arith) o)))
]

pub evict_before-twice :
    (c d : ℕ) (q : List ℕ) → c ≤ d → evict_before d (evict_before c q) ≡ evict_before d q
unfolding evict_before
evict_before-twice c d [] h = refl
evict_before-twice c d (t ∷ q) h = ground (arith, evict_before-twice c d q h)

pub evict_before-append :
    (c now : ℕ) (q : List ℕ)
    → c ≤ now
    → evict_before c (q ++ now ∷ []) ≡ evict_before c q ++ now ∷ []
unfolding evict_before
evict_before-append c now [] h = ground arith
evict_before-append c now (t ∷ q) h = ground (arith, evict_before-append c now q h)

pub Ordered-prefix : (low : ℕ) (q r : List ℕ) → Ordered low (q ++ r) → Ordered low q
Ordered-prefix low [] r o = tt
Ordered-prefix low (t ∷ q) r (h, o) = (h, Ordered-prefix t q r o)

Ordered-lower : (low t : ℕ) (q : List ℕ) → low ≤ t → Ordered t q → Ordered low q
Ordered-lower low t [] h o = tt
Ordered-lower low t (u ∷ q) h (k, o) = (omega arith, o)

Ordered-skip : (low t : ℕ) (q r : List ℕ) → Ordered low (q ++ t ∷ r) → Ordered low (q ++ r)
Ordered-skip low t [] r (h, o) = Ordered-lower low t r h o
Ordered-skip low t (u ∷ q) r (h, o) = (h, Ordered-skip u t q r o)

-- A window that was last evicted at `prev` knows as much as all of `past`.
consume_all-from :
    (limit window prev : ℕ) (past times : List ℕ)
    → Ordered 0 (past ++ times)
    → Ordered prev times
    → consume_all limit window (evict_before (prev - window) past) times
      ≡ reference limit window past times
unfolding consume_all reference try_consume evict
consume_all-from limit window prev past [] o p = refl
consume_all-from limit window prev past (now ∷ times) o (h, p) =
    let kept : evict_before (now - window) (evict_before (prev - window) past)
        ≡ evict_before (now - window) past =
      evict_before-twice (prev - window) (now - window) past (omega arith) in
    let counted : length (evict_before (now - window) past) ≡ count_since (now - window) past =
      length-evict_before (now - window) 0 past (Ordered-prefix 0 past (now ∷ times) o) in
    elim (Bool-cases (ltb (count_since (now - window) past) limit)) [
      | inl e ↦
          rw (kept, counted, e)
            (ap (true ∷◌) (
              rw (sym (evict_before-append (now - window) now past (omega arith))) (
                consume_all-from limit window now (past ++ now ∷ []) times
                  (rw (append_assoc past (now ∷ []) times) o) p)))
      | inr e ↦
          rw (kept, counted, e)
            (ap (false ∷◌)
              (consume_all-from limit window now past times (Ordered-skip 0 now past times o) p))
    ]

-- A window that starts empty accepts, of requests at times that do not decrease, exactly those
-- before which fewer than `limit` were accepted since the window of the request began.
pub consume_all-reference :
    (limit window : ℕ) (times : List ℕ)
    → Ordered 0 times
    → consume_all limit window [] times ≡ reference limit window [] times
unfolding evict_before
consume_all-reference limit window times o = consume_all-from limit window 0 [] times o o
