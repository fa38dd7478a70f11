-- ===== src/Engine/Capture/Addresses.antt =====
-- From a frame of core-engine/src/network/stream.rs to the report of it: the address that is printed,
-- and the port that is read from it.
use mathlib.Core.Option
use aether_lens.Prelude.{
  ℕ, ◌≤◌, ◌≡◌, ap, sym, Bool, Option, none, some, [], ◌∷◌, ◌++◌, append_assoc, Text, ◌⊎◌, inl, inr,
  if◌then◌else◌,
}
use aether_lens.Number.{number_text}
use aether_lens.Engine.Scoring.{CapturedPacket, rule, report, score_suspicious}
use aether_lens.Engine.Scoring.Ports.{score_suspicious-port}
use aether_lens.Engine.Capture.{
  Payload, tcp, udp, other, Ip, Ethernet, ipv4, ipv6, Host, captured, dissect, Details,
  transport_details_v4, transport_details_v6, parse_packet,
}

-- The destination port of a payload that has one.
abbrev pub Targets : Payload → ℕ → Type 0
Targets (tcp (some (source, destination))) port = destination ≡ port
Targets (udp (some (source, destination))) port = destination ≡ port
Targets _ port = ⊥

remote-v4 :
    (p : Payload) (local remote : Text) (port : ℕ)
    → Targets p port
    → (transport_details_v4 p local remote).remote_addr ≡ remote ++ b':' ∷ number_text port
unfolding transport_details_v4
remote-v4 (tcp (some (source, destination))) local remote port h = rw h
remote-v4 (udp (some (source, destination))) local remote port h = rw h
remote-v4 (tcp none) local remote port h = absurd h
remote-v4 (udp none) local remote port h = absurd h
remote-v4 other local remote port h = absurd h

abbrev boxed : Text → Text
boxed address = b'[' ∷ (address ++ b']' ∷ [])

boxed-port : (address s : Text) → b'[' ∷ (address ++ b']' ∷ b':' ∷ s) ≡ boxed address ++ b':' ∷ s
boxed-port address s = ap (b'[' ∷◌) (sym (append_assoc address (b']' ∷ []) (b':' ∷ s)))

remote-v6 :
    (p : Payload) (local remote : Text) (port : ℕ)
    → Targets p port
    → (transport_details_v6 p local remote).remote_addr ≡ boxed remote ++ b':' ∷ number_text port
unfolding transport_details_v6
remote-v6 (tcp (some (source, destination))) local remote port h =
    rw h (boxed-port remote (number_text port))
remote-v6 (udp (some (source, destination))) local remote port h =
    rw h (boxed-port remote (number_text port))
remote-v6 (tcp none) local remote port h = absurd h
remote-v6 (udp none) local remote port h = absurd h
remote-v6 other local remote port h = absurd h

captured-remote :
    (host : Host) (length ts : ℕ) (ip : Ip) (d : Details) (address : Text) (port : ℕ)
    → port ≤ 65_535
    → d.remote_addr ≡ address ++ b':' ∷ number_text port
    → score_suspicious (captured host length ts ip d) ≡ (
        if host.local_ips ip.source
        then Option.map (report (captured host length ts ip d)) (rule port)
        else none)
unfolding captured
captured-remote host length ts ip d address port h e =
    score_suspicious-port (captured host length ts ip d) address port h e

-- What becomes of a packet: it is sent on, and reported by the rules of a port if it is outbound.
abbrev pub Becomes : Option CapturedPacket → Bool → ℕ → Type 0
Becomes parsed outbound port =
    (packet : CapturedPacket) × (parsed ≡ some packet)
    × (score_suspicious packet
        ≡ (if outbound then Option.map (report packet) (rule port) else none))

-- A frame with an IPv4 or IPv6 header whose TCP or UDP header was read gives a packet, and that is
-- reported exactly if its source is a local address and the rules list its destination port, which
-- is a 16-bit number.
pub parse_packet-Becomes :
    (host : Host) (length ts : ℕ) (ethernet : Ethernet) (ip : Ip) (port : ℕ)
    → port ≤ 65_535
    → (ethernet ≡ ipv4 (some ip)) ⊎ (ethernet ≡ ipv6 (some ip))
    → Targets ip.payload port
    → Becomes (parse_packet host length (some ethernet) (some ts)) (host.local_ips ip.source) port
unfolding parse_packet dissect
parse_packet-Becomes host length ts ethernet ip port h (inl e) t =
    let d = transport_details_v4 ip.payload ip.source ip.destination in
    (
      captured host length ts ip d,
      ap (dissect host length ts) e,
      captured-remote host length ts ip d ip.destination port h
          (remote-v4 ip.payload ip.source ip.destination port t),
    )
parse_packet-Becomes host length ts ethernet ip port h (inr e) t =
    let d = transport_details_v6 ip.payload ip.source ip.destination in
    (
      captured host length ts ip d,
      ap (dissect host length ts) e,
      captured-remote host length ts ip d (boxed ip.destination) port h
          (remote-v6 ip.payload ip.source ip.destination port t),
    )
