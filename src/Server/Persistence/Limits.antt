-- ===== src/Server/Persistence/Limits.antt =====
-- The bounded channels of api-server/Program.cs, and that of api-server/Persistence/PacketPersistenceWorker.cs.
use aether_lens.Prelude.{
  ℕ, ◌≤◌, ◌<◌, ◌≡◌, refl, List, [], ◌∷◌, ◌++◌, length, length-append, ltb, Bool-cases, inl, inr,
  arith,
}
use aether_lens.Server.Persistence.{
  Attempts, Worker, Event, arrive, turn, fill, flush, round, take_turn, enqueue, channel_capacity,
  step,
}

pub length-enqueue-le :
    {A : Type 0} (limit : ℕ) (x : A) (waiting : List A)
    → 0 < limit
    → length waiting ≤ limit
    → length (enqueue limit x waiting) ≤ limit
unfolding enqueue
length-enqueue-le limit x [] h k = omega (arith, h)
length-enqueue-le limit x (oldest ∷ waiting) h k =
    let more = length-append waiting (x ∷ []) in
    elim (Bool-cases (ltb (length (oldest ∷ waiting)) limit)) [
      | inl free ↦ rw free ground (arith, more)
      | inr full ↦ rw full (omega (arith, more, k))
    ]

length-fill-le :
    {A : Type 0} (buffer waiting : List A) → length (fill buffer waiting).1 ≤ length waiting
unfolding fill
length-fill-le buffer [] = omega arith
length-fill-le buffer (extra ∷ waiting) = elim (Bool-cases (ltb (length buffer) 256)) [
  | inl free ↦ rw free (omega (arith, length-fill-le (buffer ++ extra ∷ []) waiting))
  | inr full ↦ rw full (omega arith)
]

length-take_turn-le :
    {A : Type 0} (answers : Attempts) (w : Worker A) (waiting : List A)
    → w.waiting ≡ waiting
    → length (take_turn answers w waiting).waiting ≤ length waiting
unfolding take_turn flush
length-take_turn-le answers w [] e = rw e (omega arith)
length-take_turn-le answers w (item ∷ waiting) e =
    omega (arith, length-fill-le (w.buffer ++ item ∷ []) waiting)

pub length-step-le :
    {A : Type 0} (e : Event A) (w : Worker A)
    → length w.waiting ≤ channel_capacity
    → length (step e w).waiting ≤ channel_capacity
unfolding step round
length-step-le (arrive x) w h = length-enqueue-le channel_capacity x w.waiting (omega arith) h
length-step-le (turn answers) w h = omega (arith, h, length-take_turn-le answers w w.waiting refl)
