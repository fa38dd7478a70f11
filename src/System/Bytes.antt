-- ===== src/System/Bytes.antt =====
-- The bytes in the process list of web-dashboard's store against the packets that core-engine captured.
use mathlib.Core.List.{map-append}
use mathlib.Core.Path.{subst}
use aether_lens.Prelude.{
  ℕ, ◌+◌, ◌≤◌, ◌≡◌, refl, ap, sym, some, List, [], ◌∷◌, ◌++◌, arith, take, ◌∙◌, append-nil, Text,
}
use aether_lens.Wire.{Message, packets, process_stats, health, anomaly, encode}
use aether_lens.Signalr.{receive}
use aether_lens.Signalr.Delivery.{action_of}
use aether_lens.Store.{max_processes, initial, act}
use aether_lens.Engine.Scoring.{CapturedPacket}
use aether_lens.Engine.Messages.{PacketMessage, packet_message}
use aether_lens.Server.Alerts.{alert_of}
use aether_lens.Server.Batches.{drain}
use aether_lens.Server.Health.{health_message}
use aether_lens.Server.Consumer
use aether_lens.Server.Consumer.{Counter, Stats, consume, look, report, stats_of, remove_and_send}
use aether_lens.Server.Consumer.Conservation.{
  bytes_sent, bytes_sent-append, account, account-consume,
}
use aether_lens.Server.Consumer.Losses.{IsBacked, step-IsBacked, account-step_le}
use aether_lens.Pipeline.{act_if}
use aether_lens.Pipeline.Actions.{act_if-receive, on_report-lists}
use aether_lens.System.Totals.{bytes_of, bytes_of-append, bytes_of-Sublist}
use aether_lens.System.Handled.{handled_in, handled, stats_in, stats_updates}
use aether_lens.Store.Recency.{firsts, upsert-firsts}
use aether_lens.System.Gather.{gather-append}
use aether_lens.System.{
  System, Step, read, look_at, flush, alert, send_stats, measure, handle, break_wire, tell, Reach,
  start, later, initial_system, consume_packet, send_captured, send_message,
}
use aether_lens.System.Upstream.{messages, upstream, upstream-read, Step-upstream}

-- `past` holds the messages that were handled, latest first. What was handled and what is on the way for a
-- process was sent, and what was sent, is counted or is upstream was captured.
record IsCounted (captured : List CapturedPacket) (past : List Message) (s : System) : Type 0 where
  backed : IsBacked s.stats.held s.stats.counters
  total : (k : Text) → account k s.stats + bytes_of k (upstream s) ≤ bytes_of k (messages captured)
  passed :
      (k : Text)
      → bytes_sent k (stats_updates past) + bytes_sent k (stats_updates s.wire)
        ≤ bytes_sent k s.stats.sent
  view : s.store.process_stats ≡ take max_processes (firsts [] (stats_updates past))

IsCounted-start : IsCounted [] [] initial_system
unfolding initial_system initial firsts
IsCounted-start = record {
  backed = tt;
  total = λ k. omega arith;
  passed = λ k. omega arith;
  view = refl;
}

-- What is upstream after a step, with what was captured until then.
upstream_le :
    (captured : List CapturedPacket) {new : List CapturedPacket} {s t : System} (k : Text)
    → Step s new t
    → bytes_of k (upstream t) + bytes_of k (messages captured)
      ≤ bytes_of k (upstream s) + bytes_of k (messages (captured ++ new))
upstream_le captured {new} {s} {t} k st =
    let part = bytes_of-Sublist k (Step-upstream {s = s} st) in
    rw
      (map-append packet_message captured new, bytes_of-append k (messages captured) (messages new))
      (omega (arith, part, bytes_of-append k (upstream s) (messages new)))

-- A step that leaves the counters alone.
moved :
    {captured new : List CapturedPacket} {past : List Message} {s t : System} (st : Step s new t)
    → IsCounted captured past s
    → t.stats ≡ s.stats
    → ((k : Text)
        → bytes_sent k (stats_updates (handled_in st ++ past)) + bytes_sent k (stats_updates t.wire)
          ≤ bytes_sent k (stats_updates past) + bytes_sent k (stats_updates s.wire))
    → t.store.process_stats ≡ take max_processes (firsts [] (stats_updates (handled_in st ++ past)))
    → IsCounted (captured ++ new) (handled_in st ++ past) t
moved {captured} {new} {past} {s} {t} st h same fewer view = record {
  backed = subst (λ (stats : Stats). IsBacked stats.held stats.counters) (sym same) h.backed;
  total = λ k. omega (arith, h.total k, upstream_le captured k st, ap (account k) same);
  passed =
      λ k. omega (arith, fewer k, h.passed k, ap (λ (stats : Stats). bytes_sent k stats.sent) same);
  view = view;
}

-- A message of another kind is sent.
bytes_sent-send :
    (k : Text) (wire : List Message) (m : Message)
    → stats_updates (m ∷ []) ≡ []
    → bytes_sent k (stats_updates (wire ++ m ∷ [])) ≡ bytes_sent k (stats_updates wire)
bytes_sent-send k wire m e = rw (gather-append stats_in wire (m ∷ []), e, append-nil)

handle-IsCounted :
    {captured : List CapturedPacket} {past : List Message} {s : System} (m : Message)
    (rest : List Message) (e : s.wire ≡ m ∷ rest)
    → IsCounted captured past s
    → IsCounted
        (captured ++ [])
        (m ∷ past)
        (record s { wire = rest; store = act_if (receive (encode m)) s.store })
unfolding action_of act
handle-IsCounted {captured} {past} {s} (packets batch) rest e h =
    moved (handle e) h refl (λ k. omega (arith, ap (λ w. bytes_sent k (stats_updates w)) e))
      (ap (λ a. a.process_stats) (act_if-receive (packets batch) s.store) ∙ h.view)
handle-IsCounted {captured} {past} {s} (process_stats u) rest e h =
    moved (handle e) h refl (λ k. ground (arith, ap (λ w. bytes_sent k (stats_updates w)) e))
      (ap (λ a. a.process_stats) (act_if-receive (process_stats u) s.store)
        ∙ upsert-firsts u s.store (stats_updates past) h.view)
handle-IsCounted {captured} {past} {s} (health x) rest e h =
    moved (handle e) h refl (λ k. omega (arith, ap (λ w. bytes_sent k (stats_updates w)) e))
      (ap (λ a. a.process_stats) (act_if-receive (health x) s.store) ∙ h.view)
handle-IsCounted {captured} {past} {s} (anomaly a) rest e h =
    moved (handle e) h refl (λ k. omega (arith, ap (λ w. bytes_sent k (stats_updates w)) e))
      (ap (λ a. a.process_stats) (act_if-receive (anomaly a) s.store) ∙ h.view)

read-IsCounted :
    {captured : List CapturedPacket} {past : List Message} {s : System} (now : ℕ)
    (m : PacketMessage) (rest : List PacketMessage)
    → s.packet_channel ≡ m ∷ rest
    → IsCounted captured past s
    → IsCounted (captured ++ []) past (consume_packet now m (record s { packet_channel = rest }))
unfolding consume_packet Consumer.step
read-IsCounted {captured} {past} {s} now m rest e h = rw (append-nil captured) (record {
  backed = step-IsBacked (consume m) s.stats h.backed;
  total = λ k.
      omega (arith, h.total k, account-consume k m s.stats, ap (bytes_of k) (upstream-read s e));
  passed = h.passed;
  view = h.view;
})

sent-report :
    (now : ℕ) (process : Text) (metric : Counter) (s : Stats)
    → s.held ≡ some (process, metric)
    → (Consumer.step (report now) s).sent ≡ s.sent ++ stats_of now process metric ∷ []
unfolding Consumer.step remove_and_send
sent-report now process metric s e = rw e refl

send_stats-IsCounted :
    {captured : List CapturedPacket} {past : List Message} {s : System} (now : ℕ) (process : Text)
    (metric : Counter)
    → s.stats.held ≡ some (process, metric)
    → IsCounted captured past s
    → IsCounted (captured ++ []) past (
        send_message
          (process_stats (stats_of now process metric))
          (record s { stats = Consumer.step (report now) s.stats }))
unfolding send_message
send_stats-IsCounted {captured} {past} {s} now process metric e h =
    let u = stats_of now process metric in
    rw (append-nil captured) (record {
      backed = step-IsBacked (report now) s.stats h.backed;
      total = λ k. omega (arith, h.total k, account-step_le k now s.stats h.backed);
      passed = λ k.
          rw
            (
              sent-report now process metric s.stats e,
              gather-append stats_in s.wire (process_stats u ∷ []),
              bytes_sent-append k s.stats.sent u,
              bytes_sent-append k (stats_updates s.wire) u,
            )
            (omega (arith, h.passed k));
      view = h.view;
    })

Step-IsCounted :
    {captured new : List CapturedPacket} {past : List Message} {s t : System} (st : Step s new t)
    → IsCounted captured past s
    → IsCounted (captured ++ new) (handled_in st ++ past) t
unfolding send_captured send_message Consumer.step
Step-IsCounted {captured} {new} {past} {s} (read now {m} {rest} e) h = read-IsCounted now m rest e h
Step-IsCounted {captured} {new} {past} {s} (look_at process) h = rw (append-nil captured) (record {
  backed = step-IsBacked (look process) s.stats h.backed;
  total = h.total;
  passed = h.passed;
  view = h.view;
})
Step-IsCounted {captured} {new} {past} {s} (flush {u} {us} e f) h =
    moved (flush e f) h refl
      (λ k. omega (arith, bytes_sent-send k s.wire (packets (drain (u ∷ us) [])) refl)) h.view
Step-IsCounted {captured} {new} {past} {s} (alert {item} {rest} e) h =
    moved (alert e) h refl
      (λ k. omega (arith, bytes_sent-send k s.wire (anomaly (alert_of item)) refl)) h.view
Step-IsCounted {captured} {new} {past} {s} (send_stats now {process} {metric} e) h =
    send_stats-IsCounted now process metric e h
Step-IsCounted {captured} {new} {past} {s} (measure round rates grpc_connected start_time now) h =
    moved (measure round rates grpc_connected start_time now) h refl
      (λ k. omega (
        arith,
        bytes_sent-send k s.wire (health (health_message round rates grpc_connected start_time now))
            refl,
      ))
      h.view
Step-IsCounted {captured} {new} {past} {s} (handle {m} {rest} e) h = handle-IsCounted m rest e h
Step-IsCounted {captured} {new} {past} {s} break_wire h =
    moved break_wire h refl (λ k. omega arith) h.view
Step-IsCounted {captured} {new} {past} {s} (tell r) h =
    moved (tell r) h refl (λ k. omega arith) ((on_report-lists r s.store).2 ∙ h.view)
Step-IsCounted {captured} {new} {past} st h = moved st h refl (λ k. omega arith) h.view

Reach-IsCounted :
    {captured : List CapturedPacket} {s : System} (r : Reach captured s)
    → IsCounted captured (handled r) s
Reach-IsCounted start = IsCounted-start
Reach-IsCounted (later r st) = Step-IsCounted st (Reach-IsCounted r)

-- However the parts run, whatever is lost on the way and however the two loops of the packet consumer
-- interleave: the process list shows the latest update of each process that the dashboard handled, the
-- first 100 of them, and all updates of a process that it ever handled have together no more bytes
-- than the captured packets of that process.
pub Reach-bytes :
    {captured : List CapturedPacket} {s : System} (r : Reach captured s)
    → let seen = stats_updates (handled r) in
      (s.store.process_stats ≡ take 100 (firsts [] seen))
      × ((k : Text) → bytes_sent k seen ≤ bytes_of k (messages captured))
Reach-bytes {captured} {s} r =
    let h = Reach-IsCounted r in (h.view, λ k. omega (arith, h.passed k, h.total k))
