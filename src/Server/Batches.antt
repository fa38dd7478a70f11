-- ===== src/Server/Batches.antt =====
-- `RunPacketLoop` of api-server/Persistence/PacketConsumerService.cs: the packets that wait are read
-- until none is left, each is offered to the persistence channel and queued for the hub, and the
-- queue is sent as one batch. A row of wakes is one run of the loop; the time of each read is with
-- the packet. The counters of the processes are in Server.Consumer.
pub mod Delivery
use aether_lens.Prelude.{ℕ, List, [], ◌∷◌, ◌++◌, length, ltb, if◌then◌else◌}
use aether_lens.Types.{PacketUpdate}
use aether_lens.Engine.Messages.{PacketMessage}
use aether_lens.Server.Consumer.{update_of}

-- The queue, the updates offered to the persistence channel, and the batches sent to the hub.
pub record PacketLoop : Type 0 where
  pub queue : List PacketUpdate
  pub offered : List PacketUpdate
  pub batches : List (List PacketUpdate)

-- `while (_reader.TryRead(out var packet))`
unfoldable pub read_all_waiting : List (ℕ × PacketMessage) → PacketLoop → PacketLoop
unfolding update_of
read_all_waiting [] l = l
read_all_waiting ((now, packet) ∷ waiting) l =
    let update = update_of now packet in
    read_all_waiting waiting
      (record l { queue = l.queue ++ update ∷ []; offered = l.offered ++ update ∷ [] })

-- `while (queue.TryDequeue(out var item)) batch.Add(item)`: the batch, and the empty queue.
unfoldable pub drain : List PacketUpdate → List PacketUpdate → List PacketUpdate
drain [] batch = batch
drain (item ∷ queue) batch = drain queue (batch ++ item ∷ [])

unfoldable pub send_if : List PacketUpdate → PacketLoop → PacketLoop
send_if [] l = l
send_if (item ∷ batch) l = record l { batches = l.batches ++ (item ∷ batch) ∷ [] }

unfoldable pub flush_queue : List PacketUpdate → PacketLoop → PacketLoop
unfolding drain send_if
flush_queue [] l = l
flush_queue (item ∷ queue) l = send_if (drain (item ∷ queue) []) (record l { queue = [] })

unfoldable pub wake : List (ℕ × PacketMessage) → PacketLoop → PacketLoop
unfolding read_all_waiting flush_queue
wake waiting l = let read = read_all_waiting waiting l in flush_queue read.queue read

unfoldable pub run_packet_loop : List (List (ℕ × PacketMessage)) → PacketLoop → PacketLoop
unfolding wake
run_packet_loop [] l = l
run_packet_loop (waiting ∷ wakes) l = run_packet_loop wakes (wake waiting l)

abbrev pub quiet_loop : PacketLoop
quiet_loop = record { queue = []; offered = []; batches = [] }
