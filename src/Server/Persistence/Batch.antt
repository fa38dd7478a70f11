-- ===== src/Server/Persistence/Batch.antt =====
-- One round of api-server/Persistence/PacketPersistenceWorker.cs.
use aether_lens.Prelude.{
  ℕ, zero, suc, ◌+◌, ◌≡◌, refl, ap, ap₂, sym, ◌∙◌, Bool, true, false, List, [], ◌∷◌, ◌++◌, length,
  take, drop, arith, ltb, Bool-cases, inl, inr, ◌||◌, length-append, append_assoc, append-nil,
}
use aether_lens.Server.Persistence.{Attempts, Worker, fill, bulk_insert, flush, round, take_turn}

-- From `space` free places in the buffer: the packets that find one are added, and the packet that
-- follows them is read and lost.
fill-space :
    {A : Type 0} (space : ℕ) (buffer waiting : List A)
    → length buffer + space ≡ 256
    → fill buffer waiting ≡ (buffer ++ take space waiting, drop (suc space) waiting)
unfolding fill
fill-space zero buffer [] h = rw append-nil
fill-space (suc space) buffer [] h = rw append-nil
fill-space zero buffer (x ∷ waiting) h =
    let full : ltb (length buffer) 256 ≡ false = ground arith in rw (full, append-nil)
fill-space (suc space) buffer (x ∷ waiting) h =
    let free : ltb (length buffer) 256 ≡ true = ground arith in
    rw free (
      fill-space space (buffer ++ x ∷ []) waiting (omega (arith, length-append buffer (x ∷ [])))
      ∙ rw (append_assoc buffer (x ∷ []) (take space waiting)))

flush-stored :
    {A : Type 0} (answers : Attempts) (batch waiting stored : List A)
    → (answers.first || answers.second) ≡ true
    → flush answers (batch, waiting) stored
      ≡ record { waiting = waiting; buffer = []; stored = stored ++ batch }
unfolding flush bulk_insert
flush-stored answers batch waiting stored k = elim (Bool-cases answers.first) [
  | inl once ↦ rw once
  | inr failed ↦ rw (failed, ap (λ (b : Bool). b || answers.second) (sym failed) ∙ k)
]

-- What a round makes of the packets that wait.
abbrev pub after_round : {A : Type 0} → List A → List A → Worker A
after_round waiting stored = record {
  waiting = drop 257 waiting;
  buffer = [];
  stored = stored ++ take 256 waiting;
}

take_turn-stored :
    {A : Type 0} (answers : Attempts) (w : Worker A) (waiting : List A)
    → w.buffer ≡ []
    → w.waiting ≡ waiting
    → (answers.first || answers.second) ≡ true
    → take_turn answers w waiting ≡ after_round waiting w.stored
unfolding take_turn
take_turn-stored {A = A} answers w [] e same k =
    rw append-nil
      (ap₂ (λ (b q : List A). record { waiting = q; buffer = b; stored = w.stored }) e same)
take_turn-stored answers w (x ∷ waiting) e same k =
    rw (e, fill-space 255 (x ∷ []) waiting refl)
      (flush-stored answers (x ∷ take 255 waiting) (drop 256 waiting) w.stored k)

-- A round that starts with an empty buffer and whose insertion succeeds on the first or the second
-- attempt stores the first packet that waits and up to 255 that follow it; the packet behind them,
-- the 257th, is taken from the channel and never stored.
pub round-stored :
    {A : Type 0} (answers : Attempts) (w : Worker A)
    → w.buffer ≡ []
    → (answers.first || answers.second) ≡ true
    → round answers w ≡ record {
      waiting = drop 257 w.waiting;
      buffer = [];
      stored = w.stored ++ take 256 w.waiting;
    }
unfolding round
round-stored answers w e k = take_turn-stored answers w w.waiting e refl k
