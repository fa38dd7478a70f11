-- ===== src/Server/Metrics/Accounts.antt =====
-- The counters of api-server/Services/MetricsSnapshot.cs under every interleaving of its operations.
use aether_lens.Prelude.{ℕ, length, map, ◌+◌, ◌≡◌, refl, List, [], ◌∷◌, ◌++◌, arith}
use aether_lens.Server.Metrics.{
  Metrics, Atomic, increment_packets, increment_window, take_packets, take_latency, take_max,
  add_latency, take_start, compare_exchange_max, exchange_connected, atomically, run, no_metrics,
  record_packet, snapshot,
}

abbrev pub sum : List ℕ → ℕ
sum [] = 0
sum (n ∷ ns) = n + sum ns

-- What a step counts, what it counts in the window, and the latency that it adds.
abbrev packets_of : Atomic → ℕ
packets_of increment_packets = 1
packets_of _ = 0

abbrev window_of : Atomic → ℕ
window_of increment_window = 1
window_of _ = 0

abbrev latency_of : Atomic → ℕ
latency_of (add_latency ticks) = ticks
latency_of _ = 0

abbrev weight : (Atomic → ℕ) → List Atomic → ℕ
weight f [] = 0
weight f (a ∷ steps) = f a + weight f steps

-- The counters between two states.
abbrev Accounts : Metrics → Metrics → ℕ → ℕ → ℕ → Type 0
Accounts m after packets window latency =
    (after.packet_count ≡ m.packet_count + packets)
    × (sum after.taken_packets + after.window_packets
        ≡ sum m.taken_packets + m.window_packets + window)
    × (sum after.taken_latency + after.latency_sum ≡ sum m.taken_latency + m.latency_sum + latency)

atomically-Accounts :
    (a : Atomic) (m : Metrics)
    → Accounts m (atomically a m) (packets_of a) (window_of a) (latency_of a)
unfolding atomically
atomically-Accounts increment_packets m = (omega arith, omega arith, omega arith)
atomically-Accounts increment_window m = (omega arith, omega arith, omega arith)
atomically-Accounts (take_start now) m = (omega arith, omega arith, omega arith)
atomically-Accounts take_packets m = (omega arith, omega arith, omega arith)
atomically-Accounts take_latency m = (omega arith, omega arith, omega arith)
atomically-Accounts take_max m = (omega arith, omega arith, omega arith)
atomically-Accounts (add_latency ticks) m = (omega arith, omega arith, omega arith)
atomically-Accounts (compare_exchange_max ticks current) m = (omega arith, omega arith, omega arith)
atomically-Accounts (exchange_connected b) m = (omega arith, omega arith, omega arith)

run-Accounts :
    (steps : List Atomic) (m : Metrics)
    → Accounts m
        (run steps m)
        (weight packets_of steps)
        (weight window_of steps)
        (weight latency_of steps)
unfolding run
run-Accounts [] m = (omega arith, omega arith, omega arith)
run-Accounts (a ∷ steps) m =
    let (p, w, l) = atomically-Accounts a m in
    let (ps, ws, ls) = run-Accounts steps (atomically a m) in
    (omega (arith, p, ps), omega (arith, w, ws), omega (arith, l, ls))

-- Two rows of steps, each in its order, as one.
pub data Merge : List Atomic → List Atomic → List Atomic → Type 0 where
  done : Merge [] [] []
  left : (a : Atomic) {xs ys zs : List Atomic} → Merge xs ys zs → Merge (a ∷ xs) ys (a ∷ zs)
  right : (a : Atomic) {xs ys zs : List Atomic} → Merge xs ys zs → Merge xs (a ∷ ys) (a ∷ zs)

weight-Merge :
    (f : Atomic → ℕ) {xs ys zs : List Atomic}
    → Merge xs ys zs
    → weight f zs ≡ weight f xs + weight f ys
weight-Merge f done = omega arith
weight-Merge f (left a m) = omega (arith, weight-Merge f m)
weight-Merge f (right a m) = omega (arith, weight-Merge f m)

-- A packet that is recorded: its latency, and what the loop for the maximum reads.
abbrev pub Recording : Type 0
Recording = ℕ × List ℕ

abbrev pub record_all : List Recording → List Atomic
record_all [] = []
record_all ((ticks, reads) ∷ rest) = record_packet ticks reads ++ record_all rest

-- Snapshots at the times.
abbrev pub snapshots : List ℕ → List Atomic
snapshots [] = []
snapshots (now ∷ times) = snapshot now ++ snapshots times

abbrev pub total_ticks : List Recording → ℕ
total_ticks [] = 0
total_ticks ((ticks, reads) ∷ rest) = ticks + total_ticks rest

weight-append :
    (f : Atomic → ℕ) (xs ys : List Atomic) → weight f (xs ++ ys) ≡ weight f xs + weight f ys
weight-append f [] ys = omega arith
weight-append f (x ∷ xs) ys = omega (arith, weight-append f xs ys)

-- A weight that the exchanges of the maximum do not have.
weight-exchanges :
    (f : Atomic → ℕ) (ticks : ℕ) (reads : List ℕ)
    → ((current : ℕ) → f (compare_exchange_max ticks current) ≡ 0)
    → weight f (map (compare_exchange_max ticks) reads) ≡ 0
weight-exchanges f ticks [] h = refl
weight-exchanges f ticks (current ∷ reads) h =
    omega (arith, h current, weight-exchanges f ticks reads h)

weight-record_all :
    (f : Atomic → ℕ) (ticks : ℕ) (reads : List ℕ) (rest : List Recording)
    → ((current : ℕ) → f (compare_exchange_max ticks current) ≡ 0)
    → weight f (record_all ((ticks, reads) ∷ rest))
      ≡ f increment_packets
        + f increment_window
        + f (add_latency ticks)
        + weight f (record_all rest)
unfolding record_packet
weight-record_all f ticks reads rest h = omega (
  arith,
  weight-append f (map (compare_exchange_max ticks) reads) (record_all rest),
  weight-exchanges f ticks reads h,
)

packets-record_all : (rs : List Recording) → weight packets_of (record_all rs) ≡ length rs
packets-record_all [] = refl
packets-record_all ((ticks, reads) ∷ rest) =
    omega
      (arith, weight-record_all packets_of ticks reads rest (λ _. refl), packets-record_all rest)

window-record_all : (rs : List Recording) → weight window_of (record_all rs) ≡ length rs
window-record_all [] = refl
window-record_all ((ticks, reads) ∷ rest) =
    omega (arith, weight-record_all window_of ticks reads rest (λ _. refl), window-record_all rest)

latency-record_all : (rs : List Recording) → weight latency_of (record_all rs) ≡ total_ticks rs
latency-record_all [] = refl
latency-record_all ((ticks, reads) ∷ rest) =
    omega
      (arith, weight-record_all latency_of ticks reads rest (λ _. refl), latency-record_all rest)

weight-snapshots :
    (f : Atomic → ℕ) (times : List ℕ)
    → ((now : ℕ) → f (take_start now) + f take_packets + f take_latency + f take_max ≡ 0)
    → weight f (snapshots times) ≡ 0
unfolding snapshot
weight-snapshots f [] h = refl
weight-snapshots f (now ∷ times) h = omega (arith, h now, weight-snapshots f times h)

-- However the steps of `RecordPacket` and `Snapshot` interleave, the total counts each packet once,
-- and each packet and each latency is in exactly one snapshot or still in the counters.
pub Merge-Accounts :
    (rs : List Recording) (times : List ℕ) (start : ℕ) (steps : List Atomic)
    → Merge (record_all rs) (snapshots times) steps
    → let m = run steps (no_metrics start) in
      (m.packet_count ≡ length rs)
      × (sum m.taken_packets + m.window_packets ≡ length rs)
      × (sum m.taken_latency + m.latency_sum ≡ total_ticks rs)
Merge-Accounts rs times start steps merged =
    let (p, w, l) = run-Accounts steps (no_metrics start) in
    (
      omega (
        arith,
        p,
        weight-Merge packets_of merged,
        packets-record_all rs,
        weight-snapshots packets_of times (λ _. refl),
      ),
      omega (
        arith,
        w,
        weight-Merge window_of merged,
        window-record_all rs,
        weight-snapshots window_of times (λ _. refl),
      ),
      omega (
        arith,
        l,
        weight-Merge latency_of merged,
        latency-record_all rs,
        weight-snapshots latency_of times (λ _. refl),
      ),
    )
