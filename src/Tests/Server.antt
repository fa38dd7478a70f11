-- ===== src/Tests/Server.antt =====
-- The API server on short rows of requests, packets and steps.
use mathlib.Core.List.{Sublist}
use aether_lens.Prelude.{
  ℕ, zero, suc, ◌+◌, ◌≡◌, refl, true, false, none, some, List, [], ◌∷◌, ◌++◌, arith, Text, codes,
  text_eq, take,
}
use aether_lens.Number.{quotient}
use aether_lens.Engine.Scoring.{CapturedPacket, SuspiciousConnection, report}
use aether_lens.Engine.Messages.{PacketMessage}
use aether_lens.Server.Limiter
use aether_lens.Server.Limiter.{Request, default_limit, window_size, client_key, try_consume}
use aether_lens.Server.Limiter.Decisions.{consume_all, reference}
use aether_lens.Server.Limiter.Clients.{decisions_of, no_windows, decisions_of-reference}
use aether_lens.Server.Persistence
use aether_lens.Server.Persistence.{Attempts, Worker, Event, arrive, turn, round}
use aether_lens.Server.Persistence.Batch.{round-stored}
use aether_lens.Server.Persistence.Order.{idle, stored-Sublist}
use aether_lens.Server.Stream
use aether_lens.Server.Stream.{Turn, at_call, on_stream, unavailable, start}
use aether_lens.Server.Stream.Backoff.{run-schedule, broken, run-broken}
use aether_lens.Server.Consumer
use aether_lens.Server.Consumer.{Step, consume, look, report as report_step, no_stats}
use aether_lens.Server.Consumer.Conservation.{counted, bytes_sent, run-conserves}

-- Two of three requests pass, and the fourth, after the window, again.
abbrev request_times : List ℕ
request_times = 10 ∷ 20 ∷ 30 ∷ 121 ∷ []

two_per_hundred : consume_all 2 100 [] request_times ≡ true ∷ true ∷ false ∷ true ∷ []
unfolding consume_all try_consume
two_per_hundred = refl

abbrev requests : List Request
requests =
    record { is_api = true; remote_ip = some (codes "10.0.0.1"); now = 10 }
    ∷ record { is_api = true; remote_ip = none; now = 15 }
    ∷ record { is_api = true; remote_ip = some (codes "10.0.0.1"); now = 20 }
    ∷ []

abbrev client : Text
client = codes "ip:10.0.0.1"

decisions_of-reference_example :
    decisions_of client requests (Limiter.run requests no_windows)
    ≡ reference default_limit window_size [] (10 ∷ 20 ∷ [])
unfolding client_key text_eq
decisions_of-reference_example =
    decisions_of-reference client requests (omega arith, (omega arith, tt))

abbrev irc_packet : CapturedPacket
irc_packet = record {
  process = codes "nc";
  local_addr = codes "192.168.1.10:40000";
  remote_addr = codes "1.2.3.4:6667";
  protocol = codes "TCP";
  bytes = 60;
  timestamp = 5;
  outbound = true;
}

abbrev irc_report : SuspiciousConnection
irc_report = report irc_packet (codes "Outbound IRC channel", quotient 88 100)

abbrev numbers : ℕ → List ℕ
numbers zero = []
numbers (suc n) = numbers n ++ n ∷ []

-- 258 packets wait: the one numbered 256 is lost.
abbrev second_attempt : Attempts
second_attempt = record { first = false; second = true }

abbrev busy : Worker ℕ
busy = record { waiting = numbers 258; buffer = []; stored = [] }

round-stored_example :
    round second_attempt busy
    ≡ record { waiting = 257 ∷ []; buffer = []; stored = [] ++ take 256 (numbers 258) }
round-stored_example = round-stored second_attempt busy refl refl

abbrev events : List (Event ℕ)
events =
    arrive 1
    ∷ turn (record { first = false; second = false })
    ∷ arrive 2
    ∷ turn (record { first = true; second = true })
    ∷ []

stored-Sublist_example : Sublist (Persistence.run events idle).stored (1 ∷ 2 ∷ [])
stored-Sublist_example = stored-Sublist events

abbrev turns : List (Turn ℕ)
turns =
    at_call unavailable
    ∷ at_call unavailable
    ∷ at_call unavailable
    ∷ at_call unavailable
    ∷ at_call unavailable
    ∷ on_stream (7 ∷ []) (some unavailable)
    ∷ []

run-schedule_example : (Stream.run turns start).waits ≡ 2 ∷ 4 ∷ 8 ∷ 16 ∷ 30 ∷ 2 ∷ []
run-schedule_example = run-schedule turns

abbrev streams : List (List ℕ)
streams = (1 ∷ []) ∷ [] ∷ []

run-broken_example : (Stream.run (broken streams) start).waits ≡ 2 ∷ 2 ∷ []
run-broken_example = run-broken streams

abbrev message : Text → ℕ → PacketMessage
message process bytes = record {
  process = process;
  local_addr = codes "192.168.1.10:40000";
  remote_addr = codes "1.2.3.4:443";
  protocol = codes "TCP";
  bytes = bytes;
  timestamp = 5;
  outbound = true;
}

abbrev calm_steps : List Step
calm_steps =
    consume (message (codes "ssh") 100)
    ∷ look (codes "ssh")
    ∷ consume (message (codes "curl") 7)
    ∷ report_step 1000
    ∷ consume (message (codes "ssh") 30)
    ∷ []

run-conserves_example :
    bytes_sent (codes "ssh") (Consumer.run calm_steps no_stats).sent
      + counted ((Consumer.run calm_steps no_stats).counters (codes "ssh"))
    ≡ 130
unfolding text_eq
run-conserves_example = run-conserves (codes "ssh") calm_steps (refl, tt)

-- A packet between the read of the counter and the removal is in no report.
abbrev racing_steps : List Step
racing_steps =
    consume (message (codes "ssh") 100)
    ∷ look (codes "ssh")
    ∷ consume (message (codes "ssh") 30)
    ∷ report_step 1000
    ∷ []

racing_loses :
    bytes_sent (codes "ssh") (Consumer.run racing_steps no_stats).sent
      + counted ((Consumer.run racing_steps no_stats).counters (codes "ssh"))
    ≡ 100
unfolding Consumer.run text_eq
racing_loses = refl
