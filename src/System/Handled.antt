-- ===== src/System/Handled.antt =====
-- The hub's messages that web-dashboard handled while the system ran.
use aether_lens.Prelude.{List, [], ◌∷◌, ◌++◌}
use aether_lens.Types.{PacketUpdate, ProcessBandwidthUpdate}
use aether_lens.Wire.{Message, packets, process_stats}
use aether_lens.Engine.Scoring.{CapturedPacket}
use aether_lens.System.{System, Step, handle, Reach, start, later}
use aether_lens.System.Gather.{gather}

abbrev pub handled_in : {s t : System} {new : List CapturedPacket} → Step s new t → List Message
handled_in (handle {m} {rest} e) = m ∷ []
handled_in _ = []

-- The messages that were handled in a run of the system, latest first.
abbrev pub handled : {captured : List CapturedPacket} {s : System} → Reach captured s → List Message
handled start = []
handled (later r st) = handled_in st ++ handled r

abbrev pub batch_in : Message → List (List PacketUpdate)
batch_in (packets batch) = batch ∷ []
batch_in _ = []

-- The batches of the messages `ReceivePackets`, and the updates of `ReceiveProcessStats`, in the order of
-- the messages.
abbrev pub batches : List Message → List (List PacketUpdate)
batches = gather batch_in

abbrev pub stats_in : Message → List ProcessBandwidthUpdate
stats_in (process_stats u) = u ∷ []
stats_in _ = []

abbrev pub stats_updates : List Message → List ProcessBandwidthUpdate
stats_updates = gather stats_in
