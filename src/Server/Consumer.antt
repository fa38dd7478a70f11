-- ===== src/Server/Consumer.antt =====
-- api-server/Persistence/PacketConsumerService.cs: the packet that is sent on, and the counters per
-- process, which the packet loop adds to while the process loop reads, removes and sends them. A row
-- of steps is one interleaving of the two loops; the order in which the dictionary yields its
-- processes is an argument.
pub mod Conservation
pub mod Losses
use aether_lens.Prelude.{
  ℕ, ◌+◌, ◌-◌, Bool, Option, none, some, List, [], ◌∷◌, ◌++◌, Text, codes, text_eq, ltb,
  if◌then◌else◌,
}
use aether_lens.Number.{integer}
use aether_lens.Types.{PacketUpdate, ProcessBandwidthUpdate}
use aether_lens.Engine.Messages.{PacketMessage}

-- `Math.Max(0, now - timestamp)`
abbrev latency_of : ℕ → ℕ → ℕ
latency_of now timestamp = now - timestamp

unfoldable pub update_of : ℕ → PacketMessage → PacketUpdate
update_of now packet = record {
  process = packet.process;
  local_address = packet.local_addr;
  remote_address = packet.remote_addr;
  protocol = packet.protocol;
  bytes = packet.bytes;
  outbound = packet.outbound;
  timestamp = packet.timestamp;
  latency_ms = integer (latency_of now packet.timestamp);
}

pub record Counter : Type 0 where
  pub bytes : ℕ
  pub packets : ℕ
  pub protocol : Text

unfoldable pub tier_of : ℕ → Text
tier_of bytes =
    if ltb 10_000_000 bytes
    then codes "HIGH"
    else if ltb 1_000_000 bytes
    then codes "MEDIUM"
    else codes "LOW"

abbrev pub Counters : Type 0
Counters = Text → Option Counter

unfoldable pub set_counter : Text → Option Counter → Counters → Counters
set_counter process c counters k = if text_eq k process then c else counters k

-- The two functions that `AddOrUpdate` is given.
unfoldable pub add_packet : PacketMessage → Option Counter → Counter
add_packet packet none = record { bytes = packet.bytes; packets = 1; protocol = packet.protocol }
add_packet packet (some current) = record {
  bytes = current.bytes + packet.bytes;
  packets = current.packets + 1;
  protocol = packet.protocol;
}

-- The counters, the pair that the process loop's `foreach` holds, and what was sent.
pub record Stats : Type 0 where
  pub counters : Counters
  pub held : Option (Text × Counter)
  pub sent : List ProcessBandwidthUpdate

pub data Step : Type 0 where
  consume : PacketMessage → Step
  look : Text → Step
  report : ℕ → Step

unfoldable pub stats_of : ℕ → Text → Counter → ProcessBandwidthUpdate
unfolding tier_of
stats_of now process metric = record {
  process = process;
  bytes_per_second = metric.bytes;
  packets_per_second = metric.packets;
  protocol = metric.protocol;
  timestamp = now;
  tier = tier_of metric.bytes;
}

-- `foreach` yields a process that is there, with the counter it has then.
unfoldable pub hold : Text → Option Counter → Option (Text × Counter)
hold process none = none
hold process (some metric) = some (process, metric)

-- `TryRemove`, whatever the counter is by now, and the update from the one that was read.
unfoldable pub remove_and_send : ℕ → Option (Text × Counter) → Stats → Stats
unfolding stats_of set_counter
remove_and_send now none s = s
remove_and_send now (some (process, metric)) s = record {
  counters = set_counter process none s.counters;
  held = none;
  sent = s.sent ++ stats_of now process metric ∷ [];
}

unfoldable pub step : Step → Stats → Stats
unfolding set_counter add_packet hold remove_and_send
step (consume packet) s = record s {
  counters =
      set_counter packet.process (some (add_packet packet (s.counters packet.process))) s.counters;
}
step (look process) s = record s { held = hold process (s.counters process) }
step (report now) s = remove_and_send now s.held s

unfoldable pub run : List Step → Stats → Stats
unfolding step
run [] s = s
run (e ∷ steps) s = run steps (step e s)

abbrev pub no_stats : Stats
no_stats = record { counters = λ _. none; held = none; sent = [] }
