-- ===== src/View/Charts.antt =====
-- What web-dashboard/src/components/NetworkTrafficChart.tsx and ProtocolPieChart.tsx render. `AreaChart` and
-- `Pie` of Recharts, which are given the data, are arguments; numbers, lists and flags of the other
-- attributes are written as texts, and an attribute that is an object is one for each property.
use Prim.Native.String.{String}
use aether_lens.Prelude.{ℕ, ◌+◌, List, [], ◌∷◌, ◌++◌, Text, codes}
use aether_lens.Number.{Double, number_text, to_fixed}
use aether_lens.Charts.Traffic.{DataPoint, overlay}
use aether_lens.Charts.Protocols.{ProtocolData}
use aether_lens.View.{Node, Nodes, text, element, nil, ◌▷◌, key, literal, div, span}

-- `<ResponsiveContainer width="100%" height="100%">`
abbrev pub responsive_container : Node → Node
responsive_container drawing =
    element (codes "ResponsiveContainer")
      ((codes "width", codes "100%") ∷ (codes "height", codes "100%") ∷ []) (drawing ▷ nil)

-- An element with attributes that stand in the source.
abbrev pub attributes : List (String × String) → List (Text × Text)
attributes [] = []
attributes ((name, value) ∷ rest) = (codes name, codes value) ∷ attributes rest

abbrev pub named : String → List (String × String) → Nodes → Node
named name with children = element (codes name) (attributes with) children

-- The gradient under the curve.
abbrev pub gradient : Node
gradient =
    named "linearGradient"
      (("id", "colorPps") ∷ ("x1", "0") ∷ ("y1", "0") ∷ ("x2", "0") ∷ ("y2", "1") ∷ [])
      (named "stop"
          (("offset", "5%") ∷ ("stopColor", "var(--accent-blue)") ∷ ("stopOpacity", "0.3") ∷ []) nil
        ▷ named "stop"
            (("offset", "95%") ∷ ("stopColor", "var(--accent-blue)") ∷ ("stopOpacity", "0") ∷ [])
            nil
        ▷ nil)

abbrev pub content_style : List (String × String)
content_style =
    ("contentStyle.backgroundColor", "#0D1117")
    ∷ ("contentStyle.borderColor", "#30363D")
    ∷ ("contentStyle.fontSize", "12px")
    ∷ []

abbrev pub traffic_tooltip : Node
traffic_tooltip =
    named "Tooltip"
      (content_style
        ++ ("itemStyle.color", "var(--accent-blue)") ∷ ("labelStyle.display", "none") ∷ [])
      nil

-- The `formatter` of the tooltip.
unfoldable pub throughput : Double → Text × Text
throughput value = (to_fixed 1 value ++ codes " PPS", codes "Throughput")

abbrev pub area : Node
area =
    named "Area"
      (("type", "monotone")
        ∷ ("dataKey", "pps")
        ∷ ("stroke", "var(--accent-blue)")
        ∷ ("strokeWidth", "2")
        ∷ ("fillOpacity", "1")
        ∷ ("fill", "url(#colorPps)")
        ∷ ("isAnimationActive", "false")
        ∷ [])
      nil

-- What `AreaChart` has as children.
abbrev pub traffic_drawing : Nodes
traffic_drawing =
    named "defs" [] (gradient ▷ nil)
    ▷ named "XAxis" (("dataKey", "time") ∷ ("hide", "true") ∷ ("interval", "preserveStartEnd") ∷ [])
        nil
    ▷ named "YAxis" (("hide", "true") ∷ ("domain", "0,auto") ∷ []) nil
    ▷ traffic_tooltip
    ▷ area
    ▷ nil

abbrev pub traffic_header : Node
traffic_header = div "flex items-center justify-between border-b border-[#30363D] px-3 py-2" (
    div "flex items-center gap-2" (
      div "h-2 w-2 rounded-full bg-[var(--accent-blue)]" nil
      ▷ span "text-xs font-semibold text-[var(--text-secondary)] uppercase tracking-wider"
          (literal "Network Throughput" ▷ nil)
      ▷ nil)
    ▷ span "text-[10px] font-mono text-[var(--text-secondary)]" (literal "LIVE PPS" ▷ nil)
    ▷ nil)

unfoldable pub stat_overlay : List DataPoint → Node
unfolding overlay
stat_overlay data_points = div "absolute top-10 right-4 flex flex-col items-end" (
    span "text-2xl font-bold text-white font-mono" (text (overlay data_points) ▷ nil)
    ▷ span "text-[10px] text-[var(--text-secondary)]" (literal "PACKETS / SEC" ▷ nil)
    ▷ nil)

unfoldable pub traffic_chart : (List DataPoint → Nodes → Node) → List DataPoint → Node
unfolding stat_overlay
traffic_chart area_chart data_points =
    div "flex h-full flex-col overflow-hidden bg-[#0D1117] relative" (
      traffic_header
      ▷ div "flex-1 min-h-0 w-full p-2"
          (responsive_container (area_chart data_points traffic_drawing) ▷ nil)
      ▷ stat_overlay data_points
      ▷ nil)

unfoldable pub cell : ℕ → ProtocolData → Node
cell index entry =
    element (codes "Cell")
      (key (codes "cell-" ++ number_text index) ∷ (codes "fill", entry.color) ∷ []) nil

-- The cells of the slices, which the drawing has as children.
unfoldable pub cells_from : ℕ → List ProtocolData → Nodes
unfolding cell
cells_from index [] = nil
cells_from index (entry ∷ entries) = cell index entry ▷ cells_from (index + 1) entries

abbrev pub protocol_header : Node
protocol_header = div "flex items-center justify-between border-b border-[#30363D] px-3 py-2" (
    div "flex items-center gap-2" (
      div "h-2 w-2 rounded-full bg-purple-500" nil
      ▷ span "text-xs font-semibold text-[var(--text-secondary)] uppercase tracking-wider"
          (literal "Protocol Dist" ▷ nil)
      ▷ nil)
    ▷ nil)

abbrev pub protocol_center : Node
protocol_center =
    div "absolute inset-0 flex items-center justify-center pointer-events-none"
      (span "text-[10px] text-white/50 font-mono" (literal "PROTO" ▷ nil) ▷ nil)

-- A pie as Recharts draws it, from its data, its settings and its cells.
abbrev pub Pie : Type 0
Pie = List ProtocolData → List (Text × Text) → Nodes → Node

abbrev pub pie_settings : List (String × String)
pie_settings =
    ("cx", "50%")
    ∷ ("cy", "50%")
    ∷ ("innerRadius", "25")
    ∷ ("outerRadius", "40")
    ∷ ("paddingAngle", "5")
    ∷ ("dataKey", "value")
    ∷ ("stroke", "none")
    ∷ []

unfoldable pub protocol_drawing : Pie → List ProtocolData → Node
unfolding cells_from
protocol_drawing pie slices = named "PieChart" [] (
    pie slices (attributes pie_settings) (cells_from 0 slices)
    ▷ named "Tooltip" (content_style ++ ("itemStyle.color", "#fff") ∷ []) nil
    ▷ nil)

unfoldable pub protocol_chart : Pie → List ProtocolData → Node
unfolding protocol_drawing
protocol_chart pie slices = div "flex h-full flex-col overflow-hidden bg-[#0D1117] relative" (
    protocol_header
    ▷ div "flex-1 min-h-0 w-full relative"
        (responsive_container (protocol_drawing pie slices) ▷ protocol_center ▷ nil)
    ▷ nil)
