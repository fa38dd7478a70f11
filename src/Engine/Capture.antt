-- ===== src/Engine/Capture.antt =====
-- core-engine/src/network/stream.rs, from a dissected frame to a `CapturedPacket`: the addresses, the
-- protocol and the process label. Dissecting the frame, printing an address and the table of
-- interfaces are pnet's and the standard library's; `get_process_name` is an argument.
pub mod Addresses
pub mod Loop
use aether_lens.Prelude.{
  ℕ, Bool, Option, none, some, ◌∷◌, ◌++◌, Text, codes, text_eq, ltb, ◌==◌, if◌then◌else◌,
}
use aether_lens.Number.{number_text}
use aether_lens.Engine.Scoring.{CapturedPacket}

-- The payload of an IP packet: the source and the destination port, where the header could be read.
pub data Payload : Type 0 where
  tcp udp : Option (ℕ × ℕ) → Payload
  other : Payload

pub record Details : Type 0 where
  pub protocol : Text
  pub local_addr : Text
  pub remote_addr : Text
  pub local_port : Option ℕ

-- `format!("{local}:{}", port)`
abbrev pub with_port : Text → ℕ → Text
with_port address port = address ++ b':' ∷ number_text port

-- `format!("[{local}]:{}", port)`
abbrev pub bracketed : Text → ℕ → Text
bracketed address port = b'[' ∷ (address ++ b']' ∷ b':' ∷ number_text port)

abbrev portless : Text → Text → Text → Details
portless protocol local remote = record {
  protocol = protocol;
  local_addr = local;
  remote_addr = remote;
  local_port = none;
}

unfoldable pub transport_details_v4 : Payload → Text → Text → Details
transport_details_v4 (tcp (some (source, destination))) local remote = record {
  protocol = codes "TCP";
  local_addr = with_port local source;
  remote_addr = with_port remote destination;
  local_port = some source;
}
transport_details_v4 (tcp none) local remote = portless (codes "TCP") local remote
transport_details_v4 (udp (some (source, destination))) local remote = record {
  protocol = codes "UDP";
  local_addr = with_port local source;
  remote_addr = with_port remote destination;
  local_port = some source;
}
transport_details_v4 (udp none) local remote = portless (codes "UDP") local remote
transport_details_v4 other local remote = portless (codes "IP") local remote

unfoldable pub transport_details_v6 : Payload → Text → Text → Details
transport_details_v6 (tcp (some (source, destination))) local remote = record {
  protocol = codes "TCP";
  local_addr = bracketed local source;
  remote_addr = bracketed remote destination;
  local_port = some source;
}
transport_details_v6 (tcp none) local remote = portless (codes "TCP") local remote
transport_details_v6 (udp (some (source, destination))) local remote = record {
  protocol = codes "UDP";
  local_addr = bracketed local source;
  remote_addr = bracketed remote destination;
  local_port = some source;
}
transport_details_v6 (udp none) local remote = portless (codes "UDP") local remote
transport_details_v6 other local remote = portless (codes "IPV6") local remote

unfoldable pub protocol_number : Text → ℕ
protocol_number protocol =
    if text_eq protocol (codes "TCP") then 6 else if text_eq protocol (codes "UDP") then 17 else 0

port_label : Option ℕ → Text
port_label none = codes "System"
port_label (some port) = codes "Unknown"

-- What the label is where no process was found: `windows` is the target of the build.
fallback_label : Bool → Option ℕ → Text
unfolding port_label
fallback_label windows local_port = if windows then port_label local_port else codes "system"

or_label : Option Text → Text → Text
or_label none label = label
or_label (some name) label = name

-- The lookup of the process, made only for a port of a known protocol.
found_name : (ℕ → ℕ → Option Text) → Text → Option ℕ → Option Text
found_name get_process_name protocol none = none
found_name get_process_name protocol (some port) =
    if ltb 0 (protocol_number protocol)
    then get_process_name (protocol_number protocol) port
    else none

unfoldable pub resolve_process_label : Bool → (ℕ → ℕ → Option Text) → Text → Option ℕ → Text
unfolding fallback_label or_label found_name protocol_number
resolve_process_label windows get_process_name protocol local_port =
    or_label (found_name get_process_name protocol local_port) (fallback_label windows local_port)

-- What the dissection of an IP header gives, its addresses printed.
pub record Ip : Type 0 where
  pub source : Text
  pub destination : Text
  pub payload : Payload

-- The ethertype of a frame, and the IP header where it could be read.
pub data Ethernet : Type 0 where
  ipv4 ipv6 : Option Ip → Ethernet
  unrelated : Ethernet

-- The addresses of the host, and the names of its processes by protocol number and local port.
pub record Host : Type 0 where
  pub windows : Bool
  pub local_ips : Text → Bool
  pub get_process_name : ℕ → ℕ → Option Text

-- A packet from the transport details, with the length of the frame and the time of the read.
unfoldable pub captured : Host → ℕ → ℕ → Ip → Details → CapturedPacket
unfolding resolve_process_label
captured host length ts ip d = record {
  process = resolve_process_label host.windows host.get_process_name d.protocol d.local_port;
  local_addr = d.local_addr;
  remote_addr = d.remote_addr;
  protocol = d.protocol;
  bytes = length;
  timestamp = ts;
  outbound = host.local_ips ip.source;
}

-- The `match` on the ethertype.
unfoldable pub dissect : Host → ℕ → ℕ → Ethernet → Option CapturedPacket
unfolding captured transport_details_v4 transport_details_v6
dissect host length ts (ipv4 (some ip)) =
    some (captured host length ts ip (transport_details_v4 ip.payload ip.source ip.destination))
dissect host length ts (ipv6 (some ip)) =
    some (captured host length ts ip (transport_details_v6 ip.payload ip.source ip.destination))
dissect host length ts (ipv4 none) = none
dissect host length ts (ipv6 none) = none
dissect host length ts unrelated = none

-- A frame of a length, its dissection as Ethernet, and the time, which is missing before 1970.
unfoldable pub parse_packet : Host → ℕ → Option Ethernet → Option ℕ → Option CapturedPacket
unfolding dissect
parse_packet host length none clock = none
parse_packet host length (some ethernet) none = none
parse_packet host length (some ethernet) (some ts) = dissect host length ts ethernet
