-- ===== src/Server/Persistence/Failures.antt =====
-- A round of api-server/Persistence/PacketPersistenceWorker.cs whose insertion throws.
use aether_lens.Prelude.{
  ◌≤◌, ◌<◌, ◌≡◌, refl, ap, false, List, [], ◌∷◌, ◌++◌, length, length-append, ltb, Bool-cases, inl,
  inr, arith,
}
use aether_lens.Server.Persistence.{Attempts, Worker, fill, bulk_insert, flush, round, take_turn}

fill-length :
    {A : Type 0} (buffer waiting : List A) → length buffer ≤ length (fill buffer waiting).0
unfolding fill
fill-length buffer [] = omega arith
fill-length buffer (extra ∷ waiting) = elim (Bool-cases (ltb (length buffer) 256)) [
  | inl free ↦
      rw free (
        omega
          (arith, length-append buffer (extra ∷ []), fill-length (buffer ++ extra ∷ []) waiting))
  | inr full ↦ rw full (omega arith)
]

flush-failed :
    {A : Type 0} (answers : Attempts) (batch waiting stored : List A)
    → answers.first ≡ false
    → answers.second ≡ false
    → flush answers (batch, waiting) stored
      ≡ record { waiting = waiting; buffer = batch; stored = stored }
unfolding flush bulk_insert
flush-failed answers batch waiting stored h k = rw (h, k) refl

take_turn-failed :
    {A : Type 0} (answers : Attempts) (w : Worker A) (item : A) (rest : List A)
    → answers.first ≡ false
    → answers.second ≡ false
    → ((take_turn answers w (item ∷ rest)).stored ≡ w.stored)
      × (length w.buffer < length (take_turn answers w (item ∷ rest)).buffer)
unfolding take_turn
take_turn-failed answers w item rest h k =
    let filled = fill (w.buffer ++ item ∷ []) rest in
    let same = flush-failed answers filled.0 filled.1 w.stored h k in
    (
      ap (λ after. after.stored) same,
      omega (
        arith,
        ap (λ after. length after.buffer) same,
        fill-length (w.buffer ++ item ∷ []) rest,
        length-append w.buffer (item ∷ []),
      ),
    )

-- A round that finds a packet and whose both attempts fail stores nothing and leaves the buffer longer
-- than before, however long it is.
pub round-failed :
    {A : Type 0} (answers : Attempts) (w : Worker A) (item : A) (rest : List A)
    → w.waiting ≡ item ∷ rest
    → answers.first ≡ false
    → answers.second ≡ false
    → ((round answers w).stored ≡ w.stored) × (length w.buffer < length (round answers w).buffer)
unfolding round
round-failed answers w item rest e h k = rw e (take_turn-failed answers w item rest h k)
