-- ===== src/Charts/Traffic/Window.antt =====
-- The points of web-dashboard/src/components/NetworkTrafficChart.tsx against all ticks so far.
use aether_lens.Prelude.{
  ℕ, zero, suc, ◌-◌, ◌≤◌, ◌≡◌, refl, ap, sym, ◌∙◌, some, List, [], ◌∷◌, ◌++◌, map, append_assoc,
  append-nil, arith, length, length-append, length-drop, drop, take_last, take_last_of_length-le,
  take_last-append-take_last, get_last?, ltb, Bool-cases, inl, inr,
}
use aether_lens.Number.{to_fixed}
use aether_lens.Charts.Traffic.{DataPoint, Tick, initial_data, point_of, rate, tick, run, overlay}

-- One tick is one point more, of which the last 20 stay.
tick-take_last :
    (t : Tick) (points : List DataPoint) → tick t points ≡ take_last 20 (points ++ point_of t ∷ [])
unfolding tick
tick-take_last t points = elim (Bool-cases (ltb 20 (length (points ++ point_of t ∷ [])))) [
  | inl more ↦ rw more
  | inr few ↦ rw few (ap (λ (k : ℕ). drop k (points ++ point_of t ∷ [])) {x = 0} (ground arith))
]

length-tick :
    (t : Tick) (points : List DataPoint) → length points ≡ 20 → length (tick t points) ≡ 20
length-tick t points h = rw (tick-take_last t points) (
    omega (
      arith,
      length-drop (length (points ++ point_of t ∷ []) - 20) (points ++ point_of t ∷ []),
      length-append points (point_of t ∷ []),
    ))

run-take_last :
    (ticks : List Tick) (points : List DataPoint)
    → length points ≡ 20
    → (run ticks points ≡ take_last 20 (points ++ map point_of ticks))
      × (length (run ticks points) ≡ 20)
unfolding run
run-take_last [] points h =
    (rw append-nil (sym (take_last_of_length-le 20 points (omega arith))), h)
run-take_last (t ∷ ticks) points h =
    let r = run-take_last ticks (tick t points) (length-tick t points h) in
    (
      r.0
          ∙ rw (tick-take_last t points) (
              take_last-append-take_last 20 (points ++ point_of t ∷ []) (map point_of ticks)
              ∙ ap (take_last 20) (append_assoc points (point_of t ∷ []) (map point_of ticks))),
      r.1,
    )

-- After any row of ticks the chart has exactly 20 points: the last 20 of the 20 blank ones followed
-- by one for each tick.
pub run-initial_data :
    (ticks : List Tick)
    → (run ticks initial_data ≡ take_last 20 (initial_data ++ map point_of ticks))
      × (length (run ticks initial_data) ≡ 20)
unfolding initial_data
run-initial_data ticks = run-take_last ticks initial_data refl

get_last?-append {ℓ} : {A : Type ℓ} (xs : List A) (x : A) → get_last? (xs ++ x ∷ []) ≡ some x
get_last?-append [] x = refl
get_last?-append (y ∷ []) x = refl
get_last?-append (y ∷ z ∷ xs) x = get_last?-append (z ∷ xs) x

get_last?-drop {ℓ} :
    {A : Type ℓ} (k : ℕ) (xs : List A) (x : A)
    → k ≤ length xs
    → get_last? (drop k (xs ++ x ∷ [])) ≡ some x
get_last?-drop zero xs x h = get_last?-append xs x
get_last?-drop (suc k) [] x h = absurd (omega arith)
get_last?-drop (suc k) (y ∷ xs) x h = get_last?-drop k xs x (omega arith)

-- The figure over the chart is the rate of the latest tick, to one place, whatever was before.
pub overlay-tick :
    (t : Tick) (points : List DataPoint) → overlay (tick t points) ≡ to_fixed 1 (rate t.health)
unfolding overlay
overlay-tick t points = rw (
  tick-take_last t points,
  get_last?-drop (length (points ++ point_of t ∷ []) - 20) points (point_of t)
      (omega (arith, length-append points (point_of t ∷ []))),
)
