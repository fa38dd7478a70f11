-- ===== src/Tests/Engine.antt =====
-- The capture engine on small packets.
use mathlib.Core.Option
use aether_lens.Prelude.{
  ℕ, ◌≡◌, refl, true, false, Option, none, some, arith, Text, codes, ltb, text_eq, inr,
  if◌then◌else◌,
}
use aether_lens.Number.{number_text}
use aether_lens.Engine.Scoring.{
  CapturedPacket, SuspiciousConnection, remote_port, rule, report, score_suspicious,
}
use aether_lens.Engine.Scoring.Ports.{score_suspicious-port}
use aether_lens.Engine.Capture.{Ip, tcp, other, ipv6, Host, parse_packet}
use aether_lens.Engine.Capture.Addresses.{Becomes, parse_packet-Becomes}

abbrev telnet_packet : CapturedPacket
telnet_packet = record {
  process = codes "system";
  local_addr = codes "192.168.1.10:12345";
  remote_addr = codes "1.2.3.4:23";
  protocol = codes "TCP";
  bytes = 60;
  timestamp = 1_735_689_600_000;
  outbound = true;
}

score_suspicious-port_example :
    score_suspicious telnet_packet
    ≡ (if true then Option.map (report telnet_packet) (rule 23) else none)
unfolding number_text
score_suspicious-port_example =
    score_suspicious-port telnet_packet (codes "1.2.3.4") 23 (omega arith) refl

abbrev names : ℕ → ℕ → Option Text
names protocol port = if ltb port 1024 then none else some (codes "nc")

abbrev host : Host
host = record {
  windows = false;
  local_ips = λ address. text_eq address (codes "fe80::1");
  get_process_name = names;
}

abbrev telnet_ip : Ip
telnet_ip = record {
  source = codes "fe80::1";
  destination = codes "2001:db8::7";
  payload = tcp (some (40_000, 23));
}

parse_packet-Becomes_example :
    Becomes (parse_packet host 74 (some (ipv6 (some telnet_ip))) (some 1_735_689_600_000)) true 23
unfolding text_eq
parse_packet-Becomes_example =
    parse_packet-Becomes host 74 1_735_689_600_000 (ipv6 (some telnet_ip)) telnet_ip 23
      (omega arith) (inr refl) refl

-- An IPv6 packet without ports: the last group of its address is read as the port.
abbrev portless_ip : Ip
portless_ip = record {
  source = codes "fe80::1";
  destination = codes "2001:db8::23";
  payload = other;
}

icmp_packet_reported :
    Option.map SuspiciousConnection.reason (
      Option.bind (parse_packet host 74 (some (ipv6 (some portless_ip))) (some 5)) score_suspicious)
    ≡ some (codes "Outbound Telnet attempt")
unfolding parse_packet score_suspicious remote_port Option.bind text_eq
icmp_packet_reported = refl
