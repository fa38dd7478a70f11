-- ===== src/Tests/Traffic.antt =====
-- The engine's loop, its choice of an interface, its table of processes and its demo traffic.

use aether_lens.Prelude.{
  ℕ, ◌+◌, ◌%◌, ◌≤◌, ◌≡◌, ◌⊎◌, ◌==◌, if◌then◌else◌, refl, Bool, true, false, Option, none, some,
  List, [], ◌∷◌, filter, Text, codes, text_eq,
}
use aether_lens.Number.{quotient}
use aether_lens.Engine.Scoring.{SuspiciousConnection, remote_port}
use aether_lens.Engine.Capture.{Ip, tcp, ipv4, unrelated, Host}
use aether_lens.Engine.Capture.Loop.{Frame, sniff, started}
use aether_lens.Engine.Capture.Loop.Sent.{parsed, reports, sniff-started}
use aether_lens.Engine.Interfaces.{Interface, preference, is_candidate, select_interface}
use aether_lens.Engine.Interfaces.Choice.{Chosen, select_interface-Chosen}
use aether_lens.Engine.Processes.{ProcessCache, Row, new_cache, port_of, refresh, get_process_name}
use aether_lens.Engine.Processes.Names.{get_process_name-refresh}
use aether_lens.Engine.Demo.{demo_packet, demo_suspicious, demo_mode}
use aether_lens.Engine.Demo.Traffic.{SentAs, demo_packet_bounds, demo_suspicious-SentAs}

abbrev host : Host
host = record {
  windows = false;
  local_ips = λ address. text_eq address (codes "192.168.1.10");
  get_process_name = λ protocol port. none;
}

abbrev irc_ip : Ip
irc_ip = record {
  source = codes "192.168.1.10";
  destination = codes "1.2.3.4";
  payload = tcp (some (40_000, 6667));
}

abbrev frame : Bool → Frame
frame known = record {
  length = 60;
  ethernet = some (if known then ipv4 (some irc_ip) else unrelated);
  clock = some 5;
  packet_open = true;
  suspicious_open = true;
}

abbrev frames : List Frame
frames = frame false ∷ frame true ∷ []

sniff-started_example : sniff host frames started ≡ record {
  running = true;
  packets = parsed host frames;
  suspicious = reports (parsed host frames);
}
sniff-started_example = sniff-started host frames ((refl, refl), ((refl, refl), tt))

abbrev interface : Text → Bool → Interface
interface name is_loopback = record {
  name = name;
  is_loopback = is_loopback;
  ips = codes "192.168.1.10" ∷ [];
}

abbrev interfaces : List Interface
interfaces =
    interface (codes "lo") true
    ∷ interface (codes "docker0") false
    ∷ interface (codes "Ethernet 2") false
    ∷ interface (codes "Wi-Fi") false
    ∷ []

wifi_chosen : select_interface none interfaces ≡ some (interface (codes "Wi-Fi") false)
unfolding select_interface preference filter
wifi_chosen = refl

select_interface-Chosen_example :
    Chosen (filter is_candidate interfaces) (select_interface none interfaces)
select_interface-Chosen_example = select_interface-Chosen interfaces

abbrev names : ℕ → Option Text
names pid = if pid == 42 then some (codes "new.exe") else none

-- The cache still has the name of an earlier process 42.
abbrev cached : ProcessCache
cached = record new_cache { name_cache = λ pid. if pid == 42 then some (codes "old.exe") else none }

abbrev rows : List Row
rows =
    record { local_port = 0x901f; owning_pid = 7 }
    ∷ record { local_port = 0x901f; owning_pid = 42 }
    ∷ record { local_port = 0x901f; owning_pid = 0 }
    ∷ []

get_process_name-refresh_example :
    (get_process_name true names 6 8080 (refresh names 6 (some rows) cached)).0
    ≡ some (codes "old.exe")
unfolding port_of
get_process_name-refresh_example = get_process_name-refresh names 6 8080 rows cached

demo_packet_bounds_example :
    (64 ≤ (demo_packet 7 1_735_689_600_123).bytes)
    × ((demo_packet 7 1_735_689_600_123).bytes ≤ 1463)
    × (remote_port (demo_packet 7 1_735_689_600_123) ≡ 80 + 1_735_689_600_123 % 5000)
    × (80 + 1_735_689_600_123 % 5000 ≤ 5079)
demo_packet_bounds_example = demo_packet_bounds 7 1_735_689_600_123

abbrev anomaly : SuspiciousConnection
anomaly = record {
  process = codes "unknown_process.exe";
  remote_addr = (demo_packet 200 1_735_689_600_003).remote_addr;
  reason = codes "Unsigned Binary Connection";
  score = quotient 75 100;
  timestamp = (demo_packet 200 1_735_689_600_003).timestamp;
}

demo_suspicious-SentAs_example :
    SentAs 9 0 anomaly (codes "CRITICAL") (codes "CRIT")
    ⊎ SentAs 9 0 anomaly (codes "INFO") (codes "WARN")
unfolding demo_suspicious demo_packet text_eq
demo_suspicious-SentAs_example =
    demo_suspicious-SentAs 9 0 200 (demo_packet 200 1_735_689_600_003) anomaly refl

demo_mode_runs : demo_mode (some (codes " true ")) ≡ true
unfolding demo_mode
demo_mode_runs = refl
