-- ===== src/View/Page.antt =====
-- What the pages of web-dashboard/src/app render: page.tsx, error.tsx, global-error.tsx and layout.tsx.
pub mod Status
use aether_lens.Prelude.{ℕ, Bool, true, List, [], ◌∷◌, ◌++◌, Text, codes, if◌then◌else◌}
use aether_lens.Number.{Double}
use aether_lens.Store.{AetherState}
use aether_lens.Console.{LogEntry}
use aether_lens.Charts.Traffic.{DataPoint}
use aether_lens.Charts.Protocols.{ProtocolData}
use aether_lens.View.{Node, Nodes, text, element, nil, ◌▷◌, class, literal, div, span, icon}
use aether_lens.View.Console.{live_console}
use aether_lens.View.Tracker.{process_tracker}
use aether_lens.View.Feed.{anomaly_feed}
use aether_lens.View.Health.{Runtime, system_health, latency_monitor, utc_clock}
use aether_lens.View.Charts.{Pie, traffic_chart, protocol_chart}

-- The store, the states of the components, the time at which the page is rendered, and what the
-- libraries do.
pub record Screen : Type 0 where
  pub store : AetherState
  pub clock : Text
  pub display_latency : Double
  pub points : List DataPoint
  pub slices : List ProtocolData
  pub logs : List LogEntry
  pub now : ℕ
  pub runtime : Runtime
  pub area_chart : List DataPoint → Nodes → Node
  pub pie_chart : Pie

unfoldable pub online_text : Bool → Text
online_text connected = if connected then codes "SYSTEM ONLINE" else codes "OFFLINE"

unfoldable pub online_status : Bool → Node
unfolding online_text
online_status connected = div "flex items-center gap-2" (
    element (codes "div")
      (class (
          codes "h-1.5 w-1.5 rounded-full "
          ++ (if connected
              then codes "bg-green-500 shadow-[0_0_8px_rgba(34,197,94,0.6)]"
              else codes "bg-red-500 shadow-[0_0_8px_rgba(239,68,68,0.6)]"))
        ∷ [])
      nil
    ▷ span "text-[10px] font-mono text-white/50 tracking-wider" (text (online_text connected) ▷ nil)
    ▷ nil)

abbrev pub title : Node
title = div "flex items-center gap-3" (
    icon "Activity" "h-4 w-4 text-[#0096ff]"
    ▷ element (codes "h1")
        (class (codes "text-xs font-bold tracking-[0.2em] font-mono text-white/90 uppercase")
          ∷ (codes "style.textShadow", codes "0 0 10px rgba(0, 150, 255, 0.3)")
          ∷ [])
        (literal "AETHERLENS " ▷ span "text-white/30 text-[10px]" (literal "v1.0 LAB" ▷ nil) ▷ nil)
    ▷ nil)

unfoldable pub page_header : Screen → Node
unfolding online_status utc_clock latency_monitor
page_header s =
    element (codes "header")
      (class (
          codes
            "flex h-10 shrink-0 items-center justify-between border-b border-white/5 bg-[#050505]/80 px-4 backdrop-blur-md")
        ∷ [])
      (title
        ▷ div "flex items-center justify-center gap-4" (
            utc_clock s.clock
            ▷ div "h-3 w-[1px] bg-white/10" nil
            ▷ latency_monitor s.runtime true s.display_latency
            ▷ nil)
        ▷ div "flex items-center gap-4" (online_status s.store.connected ▷ nil)
        ▷ nil)

-- The heading of the left or the right column.
abbrev pub column_heading : Node → Text → Node
column_heading shown heading =
    div "flex items-center justify-between px-2 py-1 bg-[#050505] border border-white/5" (
      span "text-[10px] uppercase text-white/40 font-mono flex items-center gap-2"
        (shown ▷ text heading ▷ nil)
      ▷ nil)

unfoldable pub left_column : Screen → Node
unfolding process_tracker
left_column s = div "col-span-3 flex flex-col gap-1 overflow-hidden h-full" (
    column_heading (icon "Wifi" "h-3 w-3") (codes " Process Monitoring")
    ▷ div "h-full rounded-sm border border-white/5 bg-[#050505] overflow-hidden"
        (process_tracker s.store.process_stats ▷ nil)
    ▷ nil)

unfoldable pub center_column : Screen → Node
unfolding traffic_chart protocol_chart live_console system_health
center_column s = div "col-span-6 flex flex-col gap-1 overflow-hidden h-full" (
    div "h-32 grid grid-cols-2 gap-1" (
      div "rounded-sm border border-white/5 bg-[#050505] overflow-hidden"
        (traffic_chart s.area_chart s.points ▷ nil)
      ▷ div "rounded-sm border border-white/5 bg-[#050505] overflow-hidden"
          (protocol_chart s.pie_chart s.slices ▷ nil)
      ▷ nil)
    ▷ div
        "flex-1 rounded-sm border border-white/5 bg-[#050505] overflow-hidden flex flex-col min-h-0"
        (live_console s.logs ▷ nil)
    ▷ div "h-48 rounded-sm border border-white/5 bg-[#050505] overflow-hidden shrink-0"
        (system_health s.runtime s.store.health s.store.connected ▷ nil)
    ▷ nil)

unfoldable pub right_column : Screen → Node
unfolding anomaly_feed
right_column s = div "col-span-3 flex flex-col gap-1 overflow-hidden h-full" (
    column_heading (icon "Shield" "h-3 w-3") (codes " Threat Feed")
    ▷ div "flex-1 min-h-0 rounded-sm border border-white/5 bg-[#050505] overflow-hidden"
        (anomaly_feed s.now s.store.anomalies ▷ nil)
    ▷ nil)

unfoldable pub war_room : Screen → Node
unfolding page_header left_column center_column right_column
war_room s =
    div
      "flex h-screen w-screen overflow-hidden bg-[#0a0a0a] text-white selection:bg-[#0096ff]/30 flex-col font-sans"
      (page_header s
        ▷ element (codes "main")
            (class (codes "grid flex-1 grid-cols-12 gap-1 p-1 bg-[#0a0a0a] min-h-0 overflow-hidden")
              ∷ [])
            (left_column s ▷ center_column s ▷ right_column s ▷ nil)
        ▷ nil)

abbrev pub error_box : Text → Text → Text → Node
error_box heading message again =
    div "flex min-h-screen items-center justify-center bg-[#0a0a0a] px-6 text-white" (
      div "w-full max-w-md rounded-xl border border-white/10 bg-[#050505] p-6 text-center" (
        element (codes "h2") (class (codes "text-lg font-semibold tracking-wide") ∷ [])
          (text heading ▷ nil)
        ▷ element (codes "p") (class (codes "mt-2 text-sm text-white/60") ∷ []) (text message ▷ nil)
        ▷ element (codes "button")
            (class (
                codes
                  "mt-4 rounded bg-[#0096ff] px-4 py-2 text-sm font-semibold text-white hover:opacity-90")
              ∷ [])
            (text again ▷ nil)
        ▷ nil)
      ▷ nil)

unfoldable pub error_page : Node
error_page =
    error_box (codes "Something went wrong")
      (codes "The dashboard hit an unexpected runtime issue.") (codes "Try again")

unfoldable pub root_layout : Node → Node
root_layout children =
    element (codes "html") ((codes "lang", codes "en") ∷ [])
      (element (codes "body") [] (children ▷ nil) ▷ nil)

unfoldable pub global_error_page : Node
unfolding root_layout
global_error_page = root_layout (
    error_box (codes "Critical error") (codes "A global rendering error occurred.")
      (codes "Reload"))
