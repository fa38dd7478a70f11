-- ===== src/Tests/Services.antt =====
-- More of the API server's services on small inputs.

use aether_lens.Prelude.{
  ℕ, ◌<◌, length, ◌/◌, ◌-◌, ◌&&◌, ◌||◌, ◌==◌, zero, suc, ◌≡◌, refl, true, false, none, some, List,
  [], ◌∷◌, ◌++◌, arith, Text, codes, text_eq,
}
use aether_lens.Number.{integer, number_text}
use aether_lens.Engine.Messages.{PacketMessage}
use aether_lens.Server.Origins.{is_local_dashboard_origin}
use aether_lens.Server.Origins.Quads.{quad, is_accepted, is_local_dashboard_origin-quad}
use aether_lens.Server.Health.{two_digits, Rates, health_message, ticks_per_second, uptime_text}
use aether_lens.Server.Health.Uptime.{read_base60, uptime-health_message}
use aether_lens.Server.Batches.{run_packet_loop, quiet_loop}
use aether_lens.Server.Batches.Delivery.{all_updates, batches_of, run_packet_loop-quiet_loop}
use aether_lens.Server.Limiter.{Request, client_key}
use aether_lens.Server.Limiter
use aether_lens.Server.Limiter.Clients.{decisions_of, no_windows}
use aether_lens.Server.Limiter.Waiting.{decisions_of-waiting}
use aether_lens.Server.Persistence.{Attempts, Worker, Event, turn, round}
use aether_lens.Server.Persistence.Failures.{round-failed}
use aether_lens.Server.Persistence
use aether_lens.Server.Persistence.Drain.{Drained, run-empties}
use aether_lens.Server.Stream.{Turn, at_call, on_stream, unavailable, unexpected, faulted}
use aether_lens.Server.Suspicions.{listening, listen_all}
use aether_lens.Server.Suspicions.Delivered.{listen_all-listening}

-- An address outside the private networks is accepted.
public_host :
    is_local_dashboard_origin (some (record { host = codes "172.217.16.1"; port = 3000 })) ≡ true
unfolding is_local_dashboard_origin
public_host = refl

is_local_dashboard_origin-quad_example :
    is_local_dashboard_origin (some (record { host = quad 172 217 16 1; port = 3000 }))
    ≡ (is_accepted 172 217 16 1 && (3000 == 3000 || 3000 == 3001))
is_local_dashboard_origin-quad_example =
    is_local_dashboard_origin-quad 172 217 16 1 3000 (omega arith)

abbrev rates : Rates
rates = record {
  packets_per_second = integer 3;
  avg_latency_ms = integer 12;
  max_latency_ms = integer 40;
}

uptime_runs : uptime_text 366_150_000_000 ≡ codes "10:10:15"
unfolding uptime_text number_text two_digits
uptime_runs = refl

uptime-health_message_example :
    read_base60 0 0 (health_message (λ x places. x) rates true 1000 366_150_001_000).uptime
    ≡ (366_150_001_000 - 1000) / ticks_per_second
uptime-health_message_example =
    uptime-health_message (λ x places. x) rates true 1000 366_150_001_000

abbrev message : ℕ → PacketMessage
message bytes = record {
  process = codes "ssh";
  local_addr = codes "192.168.1.10:40000";
  remote_addr = codes "1.2.3.4:443";
  protocol = codes "TCP";
  bytes = bytes;
  timestamp = 5;
  outbound = true;
}

abbrev wakes : List (List (ℕ × PacketMessage))
wakes = ((7, message 60) ∷ (8, message 70) ∷ []) ∷ [] ∷ ((9, message 80) ∷ []) ∷ []

run_packet_loop-quiet_loop_example :
    run_packet_loop wakes quiet_loop
    ≡ record { queue = []; offered = all_updates wakes; batches = batches_of wakes }
run_packet_loop-quiet_loop_example = run_packet_loop-quiet_loop wakes

abbrev request : ℕ → Request
request now = record { is_api = true; remote_ip = some (codes "10.0.0.1"); now = now }

abbrev key : Text
key = codes "ip:10.0.0.1"

decisions_of-waiting_example :
    decisions_of key
      (request 10 ∷ request 700_000_000 ∷ [])
      (Limiter.run (request 10 ∷ request 700_000_000 ∷ []) no_windows)
    ≡ decisions_of key (request 10 ∷ []) (Limiter.run (request 10 ∷ []) no_windows) ++ true ∷ []
unfolding client_key text_eq
decisions_of-waiting_example =
    decisions_of-waiting key (request 10 ∷ []) (request 700_000_000) refl
      (omega arith, (omega arith, tt)) (omega arith, tt)

abbrev repeated : ℕ → List ℕ
repeated zero = []
repeated (suc n) = n ∷ repeated n

abbrev rounds : List (Event ℕ)
rounds =
    turn (record { first = true; second = false })
    ∷ turn (record { first = false; second = true })
    ∷ []

abbrev backlog : Worker ℕ
backlog = record { waiting = repeated 300; buffer = []; stored = [] }

run-empties_example : Drained 300 0 (Persistence.run rounds backlog)
run-empties_example = run-empties rounds backlog refl (refl, (refl, tt)) (omega arith)

abbrev turns : List (Turn ℕ)
turns =
    on_stream (1 ∷ 2 ∷ []) (some unavailable)
    ∷ at_call unavailable
    ∷ on_stream (3 ∷ []) (some unexpected)
    ∷ on_stream (4 ∷ []) none
    ∷ []

listen_all-listening_example :
    ((listen_all turns listening).written ≡ 1 ∷ 2 ∷ 3 ∷ [])
    × ((listen_all turns listening).status ≡ faulted)
listen_all-listening_example = listen_all-listening turns

-- A full buffer, while the database is locked.
abbrev stuck : Worker ℕ
stuck = record { waiting = 7 ∷ 8 ∷ []; buffer = repeated 256; stored = [] }

abbrev refused : Attempts
refused = record { first = false; second = false }

round-failed_example :
    ((round refused stuck).stored ≡ []) × (256 < length (round refused stuck).buffer)
round-failed_example = round-failed refused stuck 7 (8 ∷ []) refl refl refl
