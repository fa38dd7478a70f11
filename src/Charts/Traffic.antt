-- ===== src/Charts/Traffic.antt =====
-- web-dashboard/src/components/NetworkTrafficChart.tsx: the row of points and its timer. Each tick
-- is handed the store's health and the time as the clock prints it.
pub mod Window
use aether_lens.Prelude.{
  ℕ, zero, suc, ◌-◌, Option, none, some, List, [], ◌∷◌, ◌++◌, Text, codes, length, drop, get_last?,
  ltb, if◌then◌else◌,
}
use aether_lens.Number.{Double, integer, to_fixed}
use aether_lens.Types.{SystemHealthData}

pub record DataPoint : Type 0 where
  pub time : Text
  pub pps : Double

abbrev pub blank : DataPoint
blank = record { time = []; pps = integer 0 }

-- `Array.from({ length: n })` of blank points.
blanks : ℕ → List DataPoint
blanks zero = []
blanks (suc n) = blank ∷ blanks n

unfoldable pub initial_data : List DataPoint
unfolding blanks
initial_data = blanks 20

pub record Tick : Type 0 where
  pub health : Option SystemHealthData
  pub time : Text

abbrev pub rate : Option SystemHealthData → Double
rate none = integer 0
rate (some h) = h.packets_per_second

abbrev pub point_of : Tick → DataPoint
point_of t = record { time = t.time; pps = rate t.health }

-- The body of the interval timer.
unfoldable pub tick : Tick → List DataPoint → List DataPoint
tick t prev =
    let next = prev ++ point_of t ∷ [] in
    if ltb 20 (length next) then drop (length next - 20) next else next

unfoldable pub run : List Tick → List DataPoint → List DataPoint
unfolding tick
run [] points = points
run (t ∷ ticks) points = run ticks (tick t points)

abbrev overlay_of : Option DataPoint → Text
overlay_of none = codes "0.0"
overlay_of (some p) = to_fixed 1 p.pps

-- The figure over the chart. `toFixed` never gives the empty text.
unfoldable pub overlay : List DataPoint → Text
overlay points = overlay_of (get_last? points)
