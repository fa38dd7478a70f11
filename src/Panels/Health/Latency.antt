-- ===== src/Panels/Health/Latency.antt =====
-- The figure of web-dashboard/src/components/LatencyMonitor.tsx against the measured latency.

use aether_lens.Prelude.{
  ℕ, ◌≡◌, refl, true, false, Option, none, some, arith, Bool-cases, inl, inr, if◌then◌else◌,
}
use aether_lens.Number.{Double, integer, is_le}
use aether_lens.Types.{SystemHealthData}
use aether_lens.Panels.Health.{displayed}

is_le_total : (a b : Double) → is_le a b ≡ false → is_le b a ≡ true
unfolding is_le
is_le_total a b h = ground arith

ten-is_le-ten : is_le (integer 10) (integer 10) ≡ true
unfolding is_le
ten-is_le-ten = refl

-- The larger of 10 and a number is at least 10.
ten-is_le-max :
    (x : Double) → is_le (integer 10) (if is_le x (integer 10) then integer 10 else x) ≡ true
ten-is_le-max x = elim (Bool-cases (is_le x (integer 10))) [
  | inl small ↦ rw small ten-is_le-ten
  | inr large ↦ rw large (is_le_total x (integer 10) large)
]

-- The latency shown is never below 10, whatever was measured.
pub ten-is_le-displayed :
    (health : Option SystemHealthData) (draw : ℕ)
    → is_le (integer 10) (displayed health draw) ≡ true
unfolding displayed
ten-is_le-displayed health draw = ten-is_le-max _

-- A measured latency of 0 is shown as if nothing had been measured.
pub displayed_zero :
    (h : SystemHealthData) (draw : ℕ)
    → h.avg_latency_ms.mantissa ≡ 0
    → displayed (some h) draw ≡ displayed none draw
unfolding displayed
displayed_zero h draw e = ground arith
