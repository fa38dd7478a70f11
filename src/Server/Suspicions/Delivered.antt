-- ===== src/Server/Suspicions/Delivered.antt =====
-- What the loop of api-server/Services/SuspiciousGrpcStreamService.cs writes, and how it ends.
use aether_lens.Prelude.{
  ℕ, ◌+◌, ◌≡◌, refl, none, some, List, [], ◌∷◌, ◌++◌, append_assoc, append-nil,
}
use aether_lens.Server.Stream.{
  unavailable, cancelled, unexpected, Turn, at_call, on_stream, Status, running, stopped, faulted,
}
use aether_lens.Server.Suspicions.{
  Listener, listening, catch_failure, write_all, listen, listen_if, listen_all,
}

-- The items of the turns up to the one that ends the loop, that turn included.
abbrev pub delivered : {A : Type 0} → List (Turn A) → List A
delivered [] = []
delivered (at_call unavailable ∷ turns) = delivered turns
delivered (at_call _ ∷ turns) = []
delivered (on_stream items none ∷ turns) = items ++ delivered turns
delivered (on_stream items (some unavailable) ∷ turns) = items ++ delivered turns
delivered (on_stream items (some _) ∷ turns) = items

-- How the turns leave the loop.
abbrev pub ending : {A : Type 0} → List (Turn A) → Status
ending [] = running
ending (at_call unavailable ∷ turns) = ending turns
ending (at_call cancelled ∷ turns) = stopped
ending (at_call unexpected ∷ turns) = faulted
ending (on_stream items none ∷ turns) = ending turns
ending (on_stream items (some unavailable) ∷ turns) = ending turns
ending (on_stream items (some cancelled) ∷ turns) = stopped
ending (on_stream items (some unexpected) ∷ turns) = faulted

abbrev Outcome : {A : Type 0} → List A → Status → Listener A → Type 0
Outcome items status l = (l.written ≡ items) × (l.status ≡ status)

abbrev at : {A : Type 0} → Status → List A → ℕ → Listener A
at status written waits = record { status = status; written = written; waits = waits }

stays-stopped :
    {A : Type 0} (turns : List (Turn A)) (written : List A) (waits : ℕ)
    → Outcome written stopped (listen_all turns (at stopped written waits))
unfolding listen_all listen_if
stays-stopped [] written waits = (refl, refl)
stays-stopped (t ∷ turns) written waits = stays-stopped turns written waits

stays-faulted :
    {A : Type 0} (turns : List (Turn A)) (written : List A) (waits : ℕ)
    → Outcome written faulted (listen_all turns (at faulted written waits))
unfolding listen_all listen_if
stays-faulted [] written waits = (refl, refl)
stays-faulted (t ∷ turns) written waits = stays-faulted turns written waits

listen_all-running :
    {A : Type 0} (turns : List (Turn A)) (written : List A) (waits : ℕ)
    → Outcome
        (written ++ delivered turns)
        (ending turns)
        (listen_all turns (at running written waits))
unfolding listen_all listen_if listen catch_failure write_all
listen_all-running [] written waits = rw append-nil (refl, refl)
listen_all-running (at_call unavailable ∷ turns) written waits =
    listen_all-running turns written (waits + 1)
listen_all-running (at_call cancelled ∷ turns) written waits =
    rw append-nil (stays-stopped turns written waits)
listen_all-running (at_call unexpected ∷ turns) written waits =
    rw append-nil (stays-faulted turns written waits)
listen_all-running (on_stream items none ∷ turns) written waits =
    rw (← append_assoc written items (delivered turns))
      (listen_all-running turns (written ++ items) waits)
listen_all-running (on_stream items (some unavailable) ∷ turns) written waits =
    rw (← append_assoc written items (delivered turns))
      (listen_all-running turns (written ++ items) (waits + 1))
listen_all-running (on_stream items (some cancelled) ∷ turns) written waits =
    stays-stopped turns (written ++ items) waits
listen_all-running (on_stream items (some unexpected) ∷ turns) written waits =
    stays-faulted turns (written ++ items) waits

-- The loop writes the items of all streams in their order, over every stream that ends or becomes
-- unavailable, until the service is cancelled or another exception ends it; that exception is the
-- only way in which it faults.
pub listen_all-listening :
    {A : Type 0} (turns : List (Turn A))
    → ((listen_all turns listening).written ≡ delivered turns)
      × ((listen_all turns listening).status ≡ ending turns)
listen_all-listening turns = listen_all-running turns [] 0
