-- ===== src/Server/Consumer/Conservation.antt =====
-- The bytes of a process in api-server/Persistence/PacketConsumerService.cs: those that came, those
-- that were sent and those still counted.
use mathlib.Core.Path.{subst}
use aether_lens.Prelude.{
  ℕ, ◌+◌, ◌≡◌, refl, ap, sym, ◌∙◌, false, Option, none, some, List, [], ◌∷◌, ◌++◌, arith, Text,
  text_eq, text_eq_iff, Bool-cases, inl, inr, if◌then◌else◌,
}
use aether_lens.Types.{ProcessBandwidthUpdate}
use aether_lens.Engine.Messages.{PacketMessage}
use aether_lens.Server.Consumer.{
  Counter, Counters, Stats, Step, consume, look, report, set_counter, add_packet, stats_of, hold,
  remove_and_send, step, run, no_stats,
}

abbrev pub counted : Option Counter → ℕ
counted none = 0
counted (some c) = c.bytes

-- The bytes that were sent for a process, and those that came for it.
abbrev pub bytes_sent : Text → List ProcessBandwidthUpdate → ℕ
bytes_sent k [] = 0
bytes_sent k (u ∷ updates) =
    let rest = bytes_sent k updates in
    if text_eq k u.process then u.bytes_per_second + rest else rest

abbrev pub bytes_consumed : Text → List Step → ℕ
bytes_consumed k [] = 0
bytes_consumed k (consume packet ∷ steps) =
    let rest = bytes_consumed k steps in
    if text_eq k packet.process then packet.bytes + rest else rest
bytes_consumed k (look process ∷ steps) = bytes_consumed k steps
bytes_consumed k (report now ∷ steps) = bytes_consumed k steps

-- No packet of a process comes between the read of its counter and the removal.
abbrev pub Calm : Option Text → List Step → Type 0
Calm reading [] = Unit
Calm none (consume packet ∷ steps) = Calm none steps
Calm (some k) (consume packet ∷ steps) = (text_eq k packet.process ≡ false) × Calm (some k) steps
Calm reading (look process ∷ steps) = Calm (some process) steps
Calm reading (report now ∷ steps) = Calm none steps

-- What the process loop holds is the counter that is still there, of the process that it reads.
abbrev Fresh : Option Text → Option (Text × Counter) → Counters → Type 0
Fresh reading none counters = Unit
Fresh none (some (k, c)) counters = ⊥
Fresh (some process) (some (k, c)) counters = (process ≡ k) × (counters k ≡ some c)

pub bytes_sent-append :
    (k : Text) (updates : List ProcessBandwidthUpdate) (u : ProcessBandwidthUpdate)
    → bytes_sent k (updates ++ u ∷ [])
      ≡ bytes_sent k updates + (if text_eq k u.process then u.bytes_per_second else 0)
bytes_sent-append k [] u = ground arith
bytes_sent-append k (v ∷ updates) u = ground (arith, bytes_sent-append k updates u)

-- The bytes of a process in the state.
abbrev pub account : Text → Stats → ℕ
account k s = bytes_sent k s.sent + counted (s.counters k)

pub counted-add_packet :
    (packet : PacketMessage) (c : Option Counter)
    → counted (some (add_packet packet c)) ≡ counted c + packet.bytes
unfolding add_packet
counted-add_packet packet none = omega arith
counted-add_packet packet (some c) = refl

pub account-consume :
    (k : Text) (packet : PacketMessage) (s : Stats)
    → account k (step (consume packet) s)
      ≡ account k s + (if text_eq k packet.process then packet.bytes else 0)
unfolding step set_counter
account-consume k packet s = elim (Bool-cases (text_eq k packet.process)) [
  | inl own ↦ rw own (
      let same = ap (λ q. counted (s.counters q)) ((text_eq_iff k packet.process).0 own) in
      omega (arith, same, counted-add_packet packet (s.counters packet.process)))
  | inr other ↦ rw other (omega arith)
]

account-remove_and_send :
    (k : Text) (now : ℕ) (process : Text) (c : Counter) (s : Stats)
    → s.counters process ≡ some c
    → account k (remove_and_send now (some (process, c)) s) ≡ account k s
unfolding remove_and_send set_counter stats_of
account-remove_and_send k now process c s e = elim (Bool-cases (text_eq k process)) [
  | inl own ↦
      let read = ap counted (ap s.counters ((text_eq_iff k process).0 own) ∙ e) in
      rw (bytes_sent-append k s.sent (stats_of now process c), own) (omega (arith, read))
  | inr other ↦ rw (bytes_sent-append k s.sent (stats_of now process c), other) (omega arith)
]

consumed :
    (k : Text) (packet : PacketMessage) (steps : List Step) (after before : ℕ)
    → after ≡ before + (if text_eq k packet.process then packet.bytes else 0)
    → after + bytes_consumed k steps ≡ before + bytes_consumed k (consume packet ∷ steps)
consumed k packet steps after before e = ground (arith, e)

Calm-consume :
    (reading : Option Text) (held : Option (Text × Counter)) (counters : Counters)
    (packet : PacketMessage) (c : Option Counter) (steps : List Step)
    → Calm reading (consume packet ∷ steps)
    → Fresh reading held counters
    → Calm reading steps × Fresh reading held (set_counter packet.process c counters)
unfolding set_counter
Calm-consume none none counters packet c steps calm fresh = (calm, tt)
Calm-consume none (some (k, read)) counters packet c steps calm fresh = absurd fresh
Calm-consume (some process) none counters packet c steps (other, calm) fresh = (calm, tt)
Calm-consume (some process) (some (k, read)) counters packet c steps (other, calm) (same, e) =
    let apart : text_eq k packet.process ≡ false =
      ap (λ q. text_eq q packet.process) (sym same) ∙ other in
    (calm, (same, rw apart e))

Fresh-hold :
    (process : Text) (counters : Counters) (o : Option Counter)
    → counters process ≡ o
    → Fresh (some process) (hold process o) counters
unfolding hold
Fresh-hold process counters none e = tt
Fresh-hold process counters (some c) e = (refl, e)

account-report :
    (k : Text) (reading : Option Text) (now : ℕ) (held : Option (Text × Counter)) (s : Stats)
    → Fresh reading held s.counters
    → account k (remove_and_send now held s) ≡ account k s
unfolding remove_and_send
account-report k reading now none s fresh = refl
account-report k none now (some (process, c)) s fresh = absurd fresh
account-report k (some reading) now (some (process, c)) s (same, e) =
    account-remove_and_send k now process c s e

Fresh-report :
    (now : ℕ) (held : Option (Text × Counter)) (s : Stats)
    → s.held ≡ held
    → Fresh none (remove_and_send now held s).held (remove_and_send now held s).counters
unfolding remove_and_send
Fresh-report now none s e = subst (λ h. Fresh none h s.counters) (sym e) tt
Fresh-report now (some (process, c)) s e = tt

-- A row that goes on calmly adds to the account what it consumes.
run-account :
    (k : Text) (reading : Option Text) (steps : List Step) (s : Stats)
    → Calm reading steps
    → Fresh reading s.held s.counters
    → account k (run steps s) ≡ account k s + bytes_consumed k steps
unfolding run
run-account k reading [] s calm fresh = omega arith
run-account k reading (consume packet ∷ steps) s calm fresh =
    let (later, kept) =
      Calm-consume reading s.held s.counters packet
        (some (add_packet packet (s.counters packet.process))) steps calm fresh in
    run-account k reading steps (step (consume packet) s) later kept
    ∙ consumed k packet steps (account k (step (consume packet) s)) (account k s)
        (account-consume k packet s)
run-account k reading (look process ∷ steps) s calm fresh =
    run-account k (some process) steps (step (look process) s) calm
      (Fresh-hold process s.counters (s.counters process) refl)
run-account k reading (report now ∷ steps) s calm fresh =
    run-account k none steps (step (report now) s) calm (Fresh-report now s.held s refl)
    ∙ ap (◌+ bytes_consumed k steps) (account-report k reading now s.held s fresh)

-- In any interleaving in which no packet of a process comes between the read of its counter and the
-- removal, the bytes sent for a process and those still counted are together the bytes of its packets.
pub run-conserves :
    (k : Text) (steps : List Step)
    → Calm none steps
    → bytes_sent k (run steps no_stats).sent + counted ((run steps no_stats).counters k)
      ≡ bytes_consumed k steps
run-conserves k steps calm = run-account k none steps no_stats calm tt ∙ omega arith
