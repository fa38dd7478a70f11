-- ===== src/Panels/Health.antt =====
-- web-dashboard/src/components/SystemHealth.tsx and LatencyMonitor.tsx: the figures of the health
-- panel, and the latency that is shown in the header.
pub mod Latency
use aether_lens.Prelude.{
  ℕ, zero, suc, ◌+◌, ◌-◌, ◌*◌, ◌^◌, Bool, false, Option, none, some, ◌++◌, Text, codes, ◌==◌,
  if◌then◌else◌,
}
use aether_lens.Number.{Double, integer, is_le, quotient, to_fixed}
use aether_lens.Types.{SystemHealthData}

pub record HealthView : Type 0 where
  pub pps : Text
  pub avg_latency : Text
  pub max_latency : Text
  pub grpc_up : Bool
  pub signalr_up : Bool
  pub uptime : Text
  pub latency_color : Text

unfoldable pub latency_color : Double → Text
latency_color avg_latency =
    if is_le avg_latency (integer 100)
    then codes "var(--accent-green)"
    else if is_le avg_latency (integer 200)
    then codes "var(--accent-amber)"
    else codes "var(--accent-red)"

abbrev pub no_health : SystemHealthData
no_health = record {
  grpc_connected = false;
  packets_per_second = integer 0;
  avg_latency_ms = integer 0;
  max_latency_ms = integer 0;
  uptime = codes "00:00:00";
}

-- `health?.field ?? default`, for every field.
abbrev pub or_default : Option SystemHealthData → SystemHealthData
or_default none = no_health
or_default (some h) = h

unfoldable pub health_view : Option SystemHealthData → Bool → HealthView
unfolding latency_color
health_view health connected =
    let h = or_default health in
    record {
      pps = to_fixed 1 h.packets_per_second ++ codes " PPS";
      avg_latency = to_fixed 1 h.avg_latency_ms ++ codes "ms";
      max_latency = to_fixed 1 h.max_latency_ms ++ codes "ms";
      grpc_up = h.grpc_connected;
      signalr_up = connected;
      uptime = h.uptime;
      latency_color = latency_color h.avg_latency_ms;
    }

-- `Math.min((avg / 200) * 100, 100)`, the width of the latency bar in per cent.
unfoldable pub bar_width : Double → Double
bar_width avg =
    let part = quotient avg.mantissa (200 * 2 ^ avg.scale) in
    let width = quotient (part.mantissa * 100) (2 ^ part.scale) in
    if is_le width (integer 100) then width else integer 100

-- `health?.avgLatencyMs || 138`: the number 0 is falsy too.
unfoldable pub base_latency : Option SystemHealthData → Double
base_latency none = integer 138
base_latency (some h) = if h.avg_latency_ms.mantissa == 0 then integer 138 else h.avg_latency_ms

-- `Math.max(10, base + draw - 2)`, where `draw` is `Math.floor(Math.random() * 5)`. A sum below 0
-- is 0 here, which the maximum hides.
unfoldable pub jittered : Double → ℕ → Double
jittered base draw =
    let one = 2 ^ base.scale in
    let sum = quotient (base.mantissa + draw * one - 2 * one) one in
    if is_le sum (integer 10) then integer 10 else sum

-- What the interval timer of the latency monitor shows.
unfoldable pub displayed : Option SystemHealthData → ℕ → Double
unfolding base_latency jittered
displayed health draw = jittered (base_latency health) draw
