-- ===== src/Server/Batches/Delivery.antt =====
-- The batches of api-server/Persistence/PacketConsumerService.cs against the packets that were read.
use aether_lens.Prelude.{ℕ, ◌≡◌, refl, ap, sym, ◌∙◌, List, [], ◌∷◌, ◌++◌, append_assoc, append-nil}
use aether_lens.Types.{PacketUpdate}
use aether_lens.Engine.Messages.{PacketMessage}
use aether_lens.Server.Consumer.{update_of}
use aether_lens.Server.Batches.{
  PacketLoop, read_all_waiting, drain, send_if, flush_queue, wake, run_packet_loop, quiet_loop,
}

abbrev pub updates : List (ℕ × PacketMessage) → List PacketUpdate
updates [] = []
updates ((now, packet) ∷ waiting) = update_of now packet ∷ updates waiting

-- The batches that a row of wakes is to send: the updates of each wake that found a packet.
abbrev pub some_batch : List PacketUpdate → List (List PacketUpdate)
some_batch [] = []
some_batch (u ∷ us) = (u ∷ us) ∷ []

abbrev pub batches_of : List (List (ℕ × PacketMessage)) → List (List PacketUpdate)
batches_of [] = []
batches_of (waiting ∷ wakes) = some_batch (updates waiting) ++ batches_of wakes

abbrev pub all_updates : List (List (ℕ × PacketMessage)) → List PacketUpdate
all_updates [] = []
all_updates (waiting ∷ wakes) = updates waiting ++ all_updates wakes

pub drain-append : (queue batch : List PacketUpdate) → drain queue batch ≡ batch ++ queue
unfolding drain
drain-append [] batch = sym (append-nil batch)
drain-append (item ∷ queue) batch =
    drain-append queue (batch ++ item ∷ []) ∙ append_assoc batch (item ∷ []) queue

read_all_waiting_lem :
    (waiting : List (ℕ × PacketMessage)) (l : PacketLoop)
    → read_all_waiting waiting l
      ≡ record l { queue = l.queue ++ updates waiting; offered = l.offered ++ updates waiting }
unfolding read_all_waiting
read_all_waiting_lem [] l = rw (append-nil l.queue, append-nil l.offered)
read_all_waiting_lem ((now, packet) ∷ waiting) l =
    read_all_waiting_lem waiting _
    ∙ rw (
      append_assoc l.queue (update_of now packet ∷ []) (updates waiting),
      append_assoc l.offered (update_of now packet ∷ []) (updates waiting),
    )

flush_queue_lem :
    (queue : List PacketUpdate) (l : PacketLoop)
    → l.queue ≡ queue
    → flush_queue queue l ≡ record l { queue = []; batches = l.batches ++ some_batch queue }
unfolding flush_queue send_if
flush_queue_lem [] l e = rw (append-nil l.batches) (ap (λ q. record l { queue = q }) e)
flush_queue_lem (item ∷ queue) l e = rw (drain-append (item ∷ queue) [])

abbrev idle_loop : List PacketUpdate → List (List PacketUpdate) → PacketLoop
idle_loop offered batches = record { queue = []; offered = offered; batches = batches }

wake_lem :
    (waiting : List (ℕ × PacketMessage)) (offered : List PacketUpdate)
    (batches : List (List PacketUpdate))
    → wake waiting (idle_loop offered batches)
      ≡ idle_loop (offered ++ updates waiting) (batches ++ some_batch (updates waiting))
unfolding wake
wake_lem waiting offered batches =
    ap (λ (l : PacketLoop). flush_queue l.queue l)
      (read_all_waiting_lem waiting (idle_loop offered batches))
    ∙ flush_queue_lem (updates waiting) _ refl

run_packet_loop-idle :
    (wakes : List (List (ℕ × PacketMessage))) (offered : List PacketUpdate)
    (batches : List (List PacketUpdate))
    → run_packet_loop wakes (idle_loop offered batches)
      ≡ idle_loop (offered ++ all_updates wakes) (batches ++ batches_of wakes)
unfolding run_packet_loop
run_packet_loop-idle [] offered batches = rw (append-nil offered, append-nil batches)
run_packet_loop-idle (waiting ∷ wakes) offered batches =
    ap (run_packet_loop wakes) (wake_lem waiting offered batches)
    ∙ (run_packet_loop-idle wakes _ _
        ∙ rw (
          append_assoc offered (updates waiting) (all_updates wakes),
          append_assoc batches (some_batch (updates waiting)) (batches_of wakes),
        ))

-- Over any row of wakes the loop offers the update of each packet that it read to the persistence
-- channel, in the order of the reads, and sends for each wake that found a packet one batch of its
-- updates; at the end no update is left in the queue.
pub run_packet_loop-quiet_loop :
    (wakes : List (List (ℕ × PacketMessage)))
    → run_packet_loop wakes quiet_loop
      ≡ record { queue = []; offered = all_updates wakes; batches = batches_of wakes }
run_packet_loop-quiet_loop wakes = run_packet_loop-idle wakes [] []
