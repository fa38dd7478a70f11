-- ===== src/Charts/Protocols.antt =====
-- web-dashboard/src/components/ProtocolPieChart.tsx: how the packets of the store become slices.
-- Protocol names are ASCII, so `toUpperCase` is written for the letters a to z.
pub mod Tally
pub mod Order
use aether_lens.Prelude.{
  ℕ, ◌+◌, ◌-◌, Bool, true, false, ◌&&◌, ◌||◌, List, [], ◌∷◌, map, Text, codes, or_text, text_eq,
  ltb, leb, if◌then◌else◌,
}
use aether_lens.Types.{PacketUpdate}

pub record ProtocolData : Type 0 where
  pub name : Text
  pub value : ℕ
  pub color : Text

abbrev pub tcp : Text
tcp = codes "TCP"

abbrev pub udp : Text
udp = codes "UDP"

abbrev pub icmp : Text
icmp = codes "ICMP"

abbrev pub other : Text
other = codes "OTHER"

-- `COLORS[name] || COLORS.OTHER`
unfoldable pub color_of : Text → Text
color_of name =
    if text_eq name tcp
    then codes "#0096ff"
    else if text_eq name udp
    then codes "#22c55e"
    else if text_eq name icmp
    then codes "#eab308"
    else codes "#ef4444"

unfoldable pub to_upper : ℕ → ℕ
to_upper c = if leb b'a' c && leb c b'z' then c - 32 else c

-- `p.protocol?.toUpperCase() || "OTHER"`
unfoldable pub proto_of : PacketUpdate → Text
unfolding to_upper
proto_of p = or_text (map to_upper p.protocol) other

-- `counts`: its entries in the order of its keys.
abbrev pub Counts : Type 0
Counts = List (Text × ℕ)

no_counts : Counts
no_counts = (tcp, 0) ∷ (udp, 0) ∷ (icmp, 0) ∷ (other, 0) ∷ []

-- `counts[key] !== undefined`
has : Text → Counts → Bool
has key [] = false
has key ((k, n) ∷ counts) = text_eq key k || has key counts

-- `counts[key]++`
bump : Text → Counts → Counts
bump key [] = []
bump key ((k, n) ∷ counts) = if text_eq key k then (k, n + 1) ∷ counts else (k, n) ∷ bump key counts

count_packet : PacketUpdate → Counts → Counts
unfolding has bump
count_packet p counts =
    if has (proto_of p) counts then bump (proto_of p) counts else bump other counts

tally : List PacketUpdate → Counts → Counts
unfolding count_packet
tally [] counts = counts
tally (p ∷ packets) counts = tally packets (count_packet p counts)

pub slices : Counts → List ProtocolData
unfolding color_of
slices [] = []
slices ((name, value) ∷ counts) =
    if ltb 0 value
    then record { name = name; value = value; color = color_of name } ∷ slices counts
    else slices counts

-- What the timer sets from the packets of the store.
unfoldable pub chart_data : List PacketUpdate → List ProtocolData
unfolding slices tally no_counts proto_of
chart_data packets = slices (tally packets no_counts)
