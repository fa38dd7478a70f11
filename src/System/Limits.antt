-- ===== src/System/Limits.antt =====
-- The limits of api-server's channels and of web-dashboard's store, in the whole system.
use mathlib.Core.Path.{subst}
use aether_lens.Prelude.{◌≤◌, ap, sym, List, length, arith}
use aether_lens.Signalr.Delivery.{action_of}
use aether_lens.Store.Bounds.{IsValid, initial-IsValid, act-IsValid, run-IsValid}
use aether_lens.Engine.Scoring.{CapturedPacket}
use aether_lens.Engine.Messages.{PacketMessage, SuspiciousConnectionMessage}
use aether_lens.Server.Consumer.{update_of}
use aether_lens.Server.Persistence.{arrive, turn, channel_capacity}
use aether_lens.Server.Persistence.Limits.{length-enqueue-le, length-step-le}
use aether_lens.Pipeline.Actions.{act_if-receive, on_report-run, set_actions, says}
use aether_lens.System.{
  System, Step, write, write_report, read, alert, persist, handle, tell, Reach, start, later,
  packet_capacity, report_capacity, initial_system, consume_packet, send_captured, send_message,
}

pub record IsBounded (s : System) : Type 0 where
  pub packets_bounded : length s.packet_channel ≤ packet_capacity
  pub reports_bounded : length s.report_channel ≤ report_capacity
  pub waiting_bounded : length s.worker.waiting ≤ channel_capacity
  pub lists_valid : IsValid s.store

IsBounded-start : IsBounded initial_system
unfolding initial_system
IsBounded-start = record {
  packets_bounded = omega arith;
  reports_bounded = omega arith;
  waiting_bounded = omega arith;
  lists_valid = initial-IsValid;
}

Step-IsBounded :
    {s t : System} {new : List CapturedPacket} → Step s new t → IsBounded s → IsBounded t
unfolding send_captured consume_packet send_message
Step-IsBounded {s} (write {m} {rest} e) h = record {
  packets_bounded =
      length-enqueue-le packet_capacity m s.packet_channel (omega arith) h.packets_bounded;
  reports_bounded = h.reports_bounded;
  waiting_bounded = h.waiting_bounded;
  lists_valid = h.lists_valid;
}
Step-IsBounded {s} (write_report {m} {rest} e) h = record {
  packets_bounded = h.packets_bounded;
  reports_bounded =
      length-enqueue-le report_capacity m s.report_channel (omega arith) h.reports_bounded;
  waiting_bounded = h.waiting_bounded;
  lists_valid = h.lists_valid;
}
Step-IsBounded {s} (read now {m} {rest} e) h = record {
  packets_bounded = omega (arith, h.packets_bounded, ap (λ (l : List PacketMessage). length l) e);
  reports_bounded = h.reports_bounded;
  waiting_bounded = length-step-le (arrive (update_of now m)) s.worker h.waiting_bounded;
  lists_valid = h.lists_valid;
}
Step-IsBounded {s} (alert {item} {rest} e) h = record {
  packets_bounded = h.packets_bounded;
  reports_bounded =
      omega (arith, h.reports_bounded, ap (λ (l : List SuspiciousConnectionMessage). length l) e);
  waiting_bounded = h.waiting_bounded;
  lists_valid = h.lists_valid;
}
Step-IsBounded {s} (persist answers) h = record {
  packets_bounded = h.packets_bounded;
  reports_bounded = h.reports_bounded;
  waiting_bounded = length-step-le (turn answers) s.worker h.waiting_bounded;
  lists_valid = h.lists_valid;
}
Step-IsBounded {s} (handle {m} {rest} e) h = record {
  packets_bounded = h.packets_bounded;
  reports_bounded = h.reports_bounded;
  waiting_bounded = h.waiting_bounded;
  lists_valid =
      subst IsValid (sym (act_if-receive m s.store))
        (act-IsValid (action_of m) s.store h.lists_valid);
}
Step-IsBounded {s} (tell r) h = record {
  packets_bounded = h.packets_bounded;
  reports_bounded = h.reports_bounded;
  waiting_bounded = h.waiting_bounded;
  lists_valid =
      subst IsValid (sym (on_report-run r s.store))
        (run-IsValid (set_actions (says r)) s.store h.lists_valid);
}
Step-IsBounded _ h = record {
  packets_bounded = h.packets_bounded;
  reports_bounded = h.reports_bounded;
  waiting_bounded = h.waiting_bounded;
  lists_valid = h.lists_valid;
}

-- However the parts run, the server's channels have at most 10,000 packets, 4,000 reports and 50,000
-- packets to store, and the store at most 500 packets, 100 processes without a name twice and 50 anomalies.
pub Reach-IsBounded : {captured : List CapturedPacket} {s : System} → Reach captured s → IsBounded s
Reach-IsBounded start = IsBounded-start
Reach-IsBounded (later r st) = Step-IsBounded st (Reach-IsBounded r)
