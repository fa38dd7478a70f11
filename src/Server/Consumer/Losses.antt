-- ===== src/Server/Consumer/Losses.antt =====
-- The bytes of a process in api-server/Persistence/PacketConsumerService.cs in any interleaving of the
-- two loops: the removal may lose what came since the read, and nothing is counted twice.
use aether_lens.Prelude.{
  ℕ, ◌≤◌, ◌≡◌, refl, ap, Bool-cases, inl, inr, Option, none, some, arith, Text, text_eq,
  text_eq_iff,
}
use aether_lens.Engine.Messages.{PacketMessage}
use aether_lens.Server.Consumer.{
  Counter, Counters, Stats, Step, consume, look, report, set_counter, add_packet, stats_of, hold,
  remove_and_send, step,
}
use aether_lens.Server.Consumer.Conservation.{
  counted, bytes_sent-append, account, counted-add_packet,
}

-- The counter that the process loop holds is no larger than the one that is there.
abbrev pub IsBacked : Option (Text × Counter) → Counters → Type 0
IsBacked none counters = Unit
IsBacked (some (process, c)) counters = c.bytes ≤ counted (counters process)

hold-IsBacked :
    (process : Text) (counters : Counters) (o : Option Counter)
    → counters process ≡ o
    → IsBacked (hold process o) counters
unfolding hold
hold-IsBacked process counters none e = tt
hold-IsBacked process counters (some c) e = rw e (omega arith)

consume-IsBacked :
    (packet : PacketMessage) (counters : Counters) (held : Option (Text × Counter))
    → IsBacked held counters
    → IsBacked held
        (set_counter packet.process (some (add_packet packet (counters packet.process))) counters)
unfolding set_counter
consume-IsBacked packet counters none h = tt
consume-IsBacked packet counters (some (process, c)) h =
    elim (Bool-cases (text_eq process packet.process)) [
      | inl own ↦ rw own (
          let same = ap (λ q. counted (counters q)) ((text_eq_iff process packet.process).0 own) in
          omega (arith, same, h, counted-add_packet packet (counters packet.process)))
      | inr other ↦ rw other h
    ]

remove_and_send-IsBacked :
    (now : ℕ) (held : Option (Text × Counter)) (s : Stats)
    → s.held ≡ held
    → IsBacked (remove_and_send now held s).held (remove_and_send now held s).counters
unfolding remove_and_send
remove_and_send-IsBacked now none s e = rw e tt
remove_and_send-IsBacked now (some (process, c)) s e = tt

pub step-IsBacked :
    (e : Step) (s : Stats)
    → IsBacked s.held s.counters
    → IsBacked (step e s).held (step e s).counters
unfolding step
step-IsBacked (consume packet) s h = consume-IsBacked packet s.counters s.held h
step-IsBacked (look process) s h = hold-IsBacked process s.counters (s.counters process) refl
step-IsBacked (report now) s h = remove_and_send-IsBacked now s.held s refl

-- A removal loses what came since the read.
account-report_le :
    (k : Text) (now : ℕ) (held : Option (Text × Counter)) (s : Stats)
    → IsBacked held s.counters
    → account k (remove_and_send now held s) ≤ account k s
unfolding remove_and_send set_counter stats_of
account-report_le k now none s h = omega arith
account-report_le k now (some (process, c)) s h = elim (Bool-cases (text_eq k process)) [
  | inl own ↦
      let read = ap (λ q. counted (s.counters q)) ((text_eq_iff k process).0 own) in
      rw (bytes_sent-append k s.sent (stats_of now process c), own) (omega (arith, read, h))
  | inr other ↦ rw (bytes_sent-append k s.sent (stats_of now process c), other) (omega arith)
]

pub account-step_le :
    (k : Text) (now : ℕ) (s : Stats)
    → IsBacked s.held s.counters
    → account k (step (report now) s) ≤ account k s
unfolding step
account-step_le k now s h = account-report_le k now s.held s h
