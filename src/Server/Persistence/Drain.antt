-- ===== src/Server/Persistence/Drain.antt =====
-- How many rounds of api-server/Persistence/PacketPersistenceWorker.cs empty the channel.
use aether_lens.Prelude.{
  ℕ, ◌+◌, ◌-◌, ◌*◌, ◌/◌, ◌≤◌, ◌≡◌, refl, sym, true, List, [], ◌∷◌, ◌++◌, length, take, drop,
  length-append, length-take, length-drop, ◌||◌, arith,
}
use mathlib.Core.Path.{subst}
use aether_lens.Server.Persistence.{Worker, Event, arrive, turn, step, run}
use aether_lens.Server.Persistence.Batch.{round-stored}

-- A row of rounds, each with an attempt that succeeds.
abbrev pub Succeed : {A : Type 0} → List (Event A) → Type 0
Succeed [] = Unit
Succeed (turn answers ∷ events) = ((answers.first || answers.second) ≡ true) × Succeed events
Succeed (_ ∷ events) = ⊥

abbrev worker : {A : Type 0} → List A → List A → Worker A
worker waiting stored = record { waiting = waiting; buffer = []; stored = stored }

-- The channel is empty, and of the packets that waited all but each 257th are stored.
abbrev pub Drained : {A : Type 0} → ℕ → ℕ → Worker A → Type 0
Drained waiting stored w =
    (w.waiting ≡ []) × (w.buffer ≡ []) × (length w.stored ≡ stored + (waiting - waiting / 257))

run-Drained :
    {A : Type 0} (events : List (Event A)) (waiting stored : List A)
    → Succeed events
    → length waiting ≤ 257 * length events
    → Drained (length waiting) (length stored) (run events (worker waiting stored))
unfolding run step
run-Drained [] [] stored h k = (refl, refl, omega arith)
run-Drained [] (x ∷ waiting) stored h k = absurd (omega arith)
run-Drained (arrive x ∷ events) waiting stored h k = absurd h
run-Drained (turn answers ∷ events) waiting stored (ok, h) k =
    let (empty, idle, count) =
      run-Drained events (drop 257 waiting) (stored ++ take 256 waiting) h
        (omega (arith, length-drop 257 waiting)) in
    subst (λ w. Drained (length waiting) (length stored) (run events w))
      (sym (round-stored answers (worker waiting stored) refl ok))
      (
        empty,
        idle,
        omega (
          arith,
          count,
          length-drop 257 waiting,
          length-append stored (take 256 waiting),
          length-take 256 waiting,
        ),
      )

-- If each round's insertion succeeds on one of its attempts, a row of rounds long enough for 257
-- packets each empties the channel and the buffer, and of the packets that waited as many are not
-- stored as there are whole 257s among them.
pub run-empties :
    {A : Type 0} (events : List (Event A)) (w : Worker A)
    → w.buffer ≡ []
    → Succeed events
    → length w.waiting ≤ 257 * length events
    → Drained (length w.waiting) (length w.stored) (run events w)
run-empties events w e h k =
    subst (λ b. Drained (length w.waiting) (length w.stored) (run events (record w { buffer = b })))
      (sym e) (run-Drained events w.waiting w.stored h k)
