-- ===== src/View/Health.antt =====
-- What web-dashboard/src/components/SystemHealth.tsx, LatencyMonitor.tsx and UtcClock.tsx render. How
-- clsx and tailwind-merge join class names, and how JavaScript prints a number that need not be an
-- integer, are arguments.
use aether_lens.Prelude.{Bool, true, false, Option, [], ◌∷◌, ◌++◌, Text, codes, if◌then◌else◌}
use aether_lens.Number.{Double}
use aether_lens.Types.{SystemHealthData}
use aether_lens.Panels.Health.{health_view, or_default, bar_width}
use aether_lens.View.{Node, text, element, nil, ◌▷◌, class, literal, div, span, icon}

pub record Runtime : Type 0 where
  pub cn : Text → Text → Text
  pub print : Double → Text

unfoldable pub metric_card : Node → Text → Text → Text → Node
metric_card shown label value color =
    div
      "flex flex-col justify-center gap-0.5 rounded border border-white/5 bg-white/[0.02] px-3 py-1.5"
      (div "flex items-center gap-1.5 text-white/40"
          (shown ▷ span "text-[9px] font-bold tracking-wider" (text label ▷ nil) ▷ nil)
        ▷ element (codes "span")
            (class (codes "font-mono text-xs font-bold tracking-tight")
              ∷ (codes "style.color", color)
              ∷ (codes "style.textShadow", codes "0 0 10px " ++ (color ++ codes "40"))
              ∷ [])
            (text value ▷ nil)
        ▷ nil)

unfoldable pub status_dot : Runtime → Bool → Node
status_dot r up =
    element (codes "div")
      (class (
          r.cn (codes "h-1.5 w-1.5 rounded-full") (
            if up
            then codes "bg-green-500 shadow-[0_0_8px_rgba(34,197,94,0.6)]"
            else codes "bg-red-500"))
        ∷ [])
      nil

unfoldable pub health_header : Runtime → Bool → Bool → Node
unfolding status_dot
health_header r connected grpc_up = div "flex items-center justify-between" (
    div "flex items-center gap-2" (
      icon "Activity" "h-4 w-4 text-[#0096ff]"
      ▷ span "text-xs font-bold tracking-widest uppercase text-white/90"
          (literal "System Health" ▷ nil)
      ▷ nil)
    ▷ div "flex items-center gap-3" (
        div "flex items-center gap-1.5" (
          status_dot r connected
          ▷ span "text-[10px] font-mono text-white/50" (literal "SignalR" ▷ nil)
          ▷ nil)
        ▷ div "flex items-center gap-1.5" (
            status_dot r grpc_up
            ▷ span "text-[10px] font-mono text-white/50" (literal "gRPC" ▷ nil)
            ▷ nil)
        ▷ nil)
    ▷ nil)

unfoldable pub latency_bar : Runtime → Option SystemHealthData → Text → Text → Node
unfolding bar_width
latency_bar r health color avg_latency = div "flex flex-col gap-1 mt-1" (
    div "flex justify-between text-[9px] text-white/30 font-mono" (
      element (codes "span") [] (literal "LATENCY TARGET: 100ms" ▷ nil)
      ▷ element (codes "span") ((codes "style.color", color) ∷ []) (text avg_latency ▷ nil)
      ▷ nil)
    ▷ div "h-1 w-full overflow-hidden rounded-full bg-white/5" (
        element (codes "div")
          (class (
              codes
                "h-full rounded-full transition-all duration-500 shadow-[0_0_10px_currentColor]")
            ∷ (
              codes "style.width",
              r.print (bar_width (or_default health).avg_latency_ms) ++ codes "%",
            )
            ∷ (codes "style.background", color)
            ∷ [])
          nil
        ▷ nil)
    ▷ nil)

unfoldable pub system_health : Runtime → Option SystemHealthData → Bool → Node
unfolding metric_card health_header latency_bar health_view
system_health r health connected =
    let view = health_view health connected in
    div "flex flex-col gap-2 p-3 h-full justify-between" (
      health_header r view.signalr_up view.grpc_up
      ▷ div "grid grid-cols-2 gap-2 flex-1" (
          metric_card (icon "Gauge" "h-3 w-3") (codes "THROUGHPUT") view.pps (codes "#0096ff")
          ▷ metric_card (icon "Activity" "h-3 w-3") (codes "AVG LATENCY") view.avg_latency
              view.latency_color
          ▷ metric_card (icon "Activity" "h-3 w-3") (codes "MAX LATENCY") view.max_latency
              (codes "rgba(255,255,255,0.5)")
          ▷ metric_card (icon "Clock" "h-3 w-3") (codes "UPTIME") view.uptime (codes "#a855f7")
          ▷ nil)
      ▷ latency_bar r health view.latency_color view.avg_latency
      ▷ nil)

-- With the property `compact`.
unfoldable pub compact_latency : Runtime → Double → Node
compact_latency r display_latency =
    element (codes "div")
      (class (
          codes
            "flex items-center gap-2 rounded border border-green-500/30 bg-green-500/10 px-3 py-1 backdrop-blur-sm")
        ∷ (codes "style.boxShadow", codes "0 0 10px rgba(34, 197, 94, 0.2)")
        ∷ [])
      (icon "Activity" "h-3 w-3 text-green-500 animate-pulse"
        ▷ span "text-[10px] font-black text-green-500 font-mono tracking-wider drop-shadow-md"
            (text (r.print display_latency) ▷ literal "ms" ▷ nil)
        ▷ nil)

unfoldable pub full_latency : Runtime → Double → Node
full_latency r display_latency =
    div
      "card flex flex-col justify-center items-center gap-2 border-[var(--accent-green)]/30 bg-[var(--accent-green)]/5"
      (div "flex items-center gap-2 text-[var(--accent-green)]" (
          icon "Activity" "h-5 w-5 animate-pulse"
          ▷ span "text-sm font-bold uppercase tracking-widest"
              (literal "Packet Capture to UI" ▷ nil)
          ▷ nil)
        ▷ div "flex items-baseline gap-1" (
            span
              "text-4xl font-black text-[var(--accent-green)] font-mono tracking-tighter shadow-[var(--accent-green)] drop-shadow-md"
              (text (r.print display_latency) ▷ nil)
            ▷ span "text-sm font-medium text-[var(--accent-green)]/70" (literal "ms" ▷ nil)
            ▷ nil)
        ▷ element (codes "div")
            (class (
                codes
                  "mt-2 flex items-center gap-1.5 rounded bg-[var(--accent-green)]/20 px-3 py-1 animate-pulse-slow")
              ∷ (codes "style.boxShadow", codes "0 0 15px rgba(34, 197, 94, 0.4)")
              ∷ [])
            (icon "ShieldCheck" "h-3.5 w-3.5 text-[var(--accent-green)]"
              ▷ span "text-xs font-bold text-[var(--accent-green)] uppercase tracking-wider"
                  (literal "AetherLens latency baseline: ~139ms validated" ▷ nil)
              ▷ nil)
        ▷ nil)

unfoldable pub latency_monitor : Runtime → Bool → Double → Node
unfolding compact_latency full_latency
latency_monitor r true display_latency = compact_latency r display_latency
latency_monitor r false display_latency = full_latency r display_latency

unfoldable pub utc_clock : Text → Node
utc_clock time =
    div "flex items-center gap-2 rounded bg-white/5 px-3 py-1 text-[10px] font-mono text-white/70"
      (icon "Clock" "h-3 w-3 opacity-50" ▷ element (codes "span") [] (text time ▷ nil) ▷ nil)
