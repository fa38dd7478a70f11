-- ===== src/Engine/Demo.antt =====
-- core-engine/src/network/demo_stream.rs, the synthetic traffic, and `demo_mode` of core-engine/src/main.rs.
-- The time of a round is an argument. The sum of time and counter is below 2 ^ 64.
pub mod Traffic
use mathlib.Core.Option
use aether_lens.Prelude.{
  ℕ, zero, suc, ◌+◌, ◌-◌, ◌*◌, ◌/◌, ◌%◌, ◌^◌, Bool, true, false, ◌&&◌, ◌||◌, Option, none, some,
  List, [], ◌∷◌, ◌++◌, length, Text, codes, text_eq, ◌==◌, if◌then◌else◌,
}
use aether_lens.Number.{number_text, quotient}
use aether_lens.Endpoints.{trim}
use aether_lens.Engine.Scoring.{CapturedPacket, SuspiciousConnection}

abbrev pub processes : List Text
processes =
    codes "chrome.exe"
    ∷ codes "code.exe"
    ∷ codes "spotify.exe"
    ∷ codes "svchost.exe"
    ∷ codes "powershell.exe"
    ∷ codes "nmap.exe"
    ∷ codes "curl.exe"
    ∷ []

abbrev protocols : List Text
protocols = codes "TCP" ∷ codes "UDP" ∷ codes "TLSv1.3" ∷ []

abbrev ips : List Text
ips = codes "192.168.1.15" ∷ codes "192.168.1.22" ∷ codes "10.0.0.5" ∷ []

abbrev remote_ips : List Text
remote_ips =
    codes "142.250.185.78"
    ∷ codes "104.21.55.2"
    ∷ codes "40.114.177.156"
    ∷ codes "185.199.108.153"
    ∷ codes "1.1.1.1"
    ∷ []

-- `xs[i]`, which is always within the array here.
abbrev at : List Text → ℕ → Text
at [] i = []
at (x ∷ xs) zero = x
at (x ∷ xs) (suc i) = at xs i

unfoldable pub process_name : ℕ → ℕ → Text
process_name counter ts = at processes ((ts + counter) % length processes)

unfoldable pub demo_packet : ℕ → ℕ → CapturedPacket
unfolding process_name
demo_packet counter ts = record {
  process = process_name counter ts;
  local_addr = at ips (counter % length ips) ++ b':' ∷ number_text (40_000 + counter % 10_000);
  remote_addr =
      at remote_ips (ts / 10 % length remote_ips) ++ b':' ∷ number_text (80 + ts % 5000 % 2 ^ 16);
  protocol = at protocols (ts % length protocols);
  bytes = 64 + ts % 1400;
  timestamp = ts;
  outbound = true;
}

abbrev suspicious_of : CapturedPacket → Text → Text → ℕ → SuspiciousConnection
suspicious_of packet process reason score = record {
  process = process;
  remote_addr = packet.remote_addr;
  reason = reason;
  score = quotient score 100;
  timestamp = packet.timestamp;
}

abbrev is_dangerous : Text → Bool
unfolding text_eq
is_dangerous process =
    text_eq process (codes "nmap.exe") || text_eq process (codes "powershell.exe")

unfoldable pub demo_suspicious : ℕ → CapturedPacket → Option SuspiciousConnection
unfolding is_dangerous
demo_suspicious counter packet =
    if is_dangerous packet.process && counter % 10 == 0
    then some (
        suspicious_of packet packet.process
          (if text_eq packet.process (codes "nmap.exe")
            then codes "Port Scan Detected"
            else codes "Suspicious Payload")
          95)
    else if counter % 200 == 0
    then some
        (suspicious_of packet (codes "unknown_process.exe") (codes "Unsigned Binary Connection") 75)
    else none

-- The generator: the rounds so far, and what was sent; a failed send of a packet ends it.
pub record Generator : Type 0 where
  pub running : Bool
  pub counter : ℕ
  pub packets : List CapturedPacket
  pub suspicious : List SuspiciousConnection

append_if {ℓ} : {A : Type ℓ} → List A → Option A → List A
append_if xs none = xs
append_if xs (some x) = xs ++ x ∷ []

-- The wait of a round in milliseconds.
unfoldable pub delay_of : ℕ → ℕ
delay_of counter = 50 + counter % 150

-- A round, at a time and with or without the receivers of the two channels; the result of sending a
-- suspicious connection is ignored.
unfoldable pub generate : ℕ → Bool → Bool → Generator → Generator
unfolding demo_packet demo_suspicious append_if
generate ts packet_open suspicious_open g =
    let counter = (g.counter + 1) % 2 ^ 64 in
    let packet = demo_packet counter ts in
    if packet_open
    then (record {
      running = true;
      counter = counter;
      packets = g.packets ++ packet ∷ [];
      suspicious =
          if suspicious_open
          then append_if g.suspicious (demo_suspicious counter packet)
          else g.suspicious;
    })
    else record g { running = false; counter = counter }

-- `DEMO_MODE`, where a missing variable reads "unset".
unfoldable pub demo_mode : Option Text → Bool
unfolding trim text_eq
demo_mode none = false
demo_mode (some value) = text_eq (trim value) (codes "true") || text_eq (trim value) (codes "1")
