-- ===== src/Server/Stream/Backoff.antt =====
-- How long the loop of api-server/Services/GrpcStreamService.cs waits before it calls again.
use aether_lens.Prelude.{
  ℕ, suc, ◌*◌, ◌^◌, ◌≡◌, refl, ap, sym, ◌∙◌, min, Bool, true, false, none, some, List, [], ◌∷◌,
  ◌++◌, map, append_assoc, append-nil, arith,
}
use aether_lens.Server.Stream.{
  unavailable, cancelled, unexpected, Turn, at_call, on_stream, running, stopped, faulted,
  Subscriber, start, catch_exception, read_all, subscribe, turn_if, run,
}

-- The wait after `failures` calls in a row have failed before.
abbrev pub backoff : ℕ → ℕ
backoff failures = min (2 ^ suc failures) 30

-- The waits of a row of turns, from the number of calls that failed since a stream opened last.
abbrev pub schedule : {A : Type 0} → ℕ → List (Turn A) → List ℕ
schedule failures [] = []
schedule failures (at_call unavailable ∷ turns) = backoff failures ∷ schedule (suc failures) turns
schedule failures (on_stream items none ∷ turns) = schedule 0 turns
schedule failures (on_stream items (some unavailable) ∷ turns) = backoff 0 ∷ schedule 1 turns
schedule failures (_ ∷ turns) = []

backoff-suc : (n : ℕ) → min (backoff n * 2) 30 ≡ backoff (suc n)
backoff-suc n = omega arith

abbrev live : {A : Type 0} → ℕ → Bool → List A → List ℕ → Subscriber A
live delay connected written waits = record {
  status = running;
  delay = delay;
  connected = connected;
  written = written;
  waits = waits;
}

run-stopped :
    {A : Type 0} (turns : List (Turn A)) (s : Subscriber A)
    → run turns (record s { status = stopped }) ≡ record s { status = stopped }
unfolding run turn_if
run-stopped [] s = refl
run-stopped (t ∷ turns) s = run-stopped turns s

run-faulted :
    {A : Type 0} (turns : List (Turn A)) (s : Subscriber A)
    → run turns (record s { status = faulted }) ≡ record s { status = faulted }
unfolding run turn_if
run-faulted [] s = refl
run-faulted (t ∷ turns) s = run-faulted turns s

waits-live :
    {A : Type 0} (turns : List (Turn A)) (failures : ℕ) (connected : Bool) (written : List A)
    (waits : List ℕ)
    → (run turns (live (backoff failures) connected written waits)).waits
      ≡ waits ++ schedule failures turns
unfolding run turn_if subscribe catch_exception read_all
waits-live [] failures connected written waits = rw append-nil
waits-live (at_call unavailable ∷ turns) failures connected written waits =
    let waited = waits ++ backoff failures ∷ [] in
    ap (λ d. (run turns (live d false written waited)).waits) (backoff-suc failures)
    ∙ waits-live turns (suc failures) false written waited
    ∙ append_assoc waits (backoff failures ∷ []) (schedule (suc failures) turns)
waits-live (at_call cancelled ∷ turns) failures connected written waits =
    ap (λ s. s.waits) (run-stopped turns (live (backoff failures) false written waits))
    ∙ sym (append-nil waits)
waits-live (at_call unexpected ∷ turns) failures connected written waits =
    ap (λ s. s.waits) (run-faulted turns (live (backoff failures) connected written waits))
    ∙ sym (append-nil waits)
waits-live (on_stream items none ∷ turns) failures connected written waits =
    waits-live turns 0 true (written ++ items) waits
waits-live (on_stream items (some unavailable) ∷ turns) failures connected written waits =
    waits-live turns 1 false (written ++ items) (waits ++ 2 ∷ [])
    ∙ append_assoc waits (2 ∷ []) (schedule 1 turns)
waits-live (on_stream items (some cancelled) ∷ turns) failures connected written waits =
    ap (λ s. s.waits) (run-stopped turns (live 2 false (written ++ items) waits))
    ∙ sym (append-nil waits)
waits-live (on_stream items (some unexpected) ∷ turns) failures connected written waits =
    ap (λ s. s.waits) (run-faulted turns (live 2 true (written ++ items) waits))
    ∙ sym (append-nil waits)

-- The waits of the loop are 2, 4, 8, 16 and then always 30 seconds while the calls themselves fail;
-- after a stream that opened they begin again with 2, and a stream that ends has no wait.
pub run-schedule : {A : Type 0} (turns : List (Turn A)) → (run turns start).waits ≡ schedule 0 turns
run-schedule turns = waits-live turns 0 false [] []

abbrev pub broken : {A : Type 0} → List (List A) → List (Turn A)
broken [] = []
broken (items ∷ streams) = on_stream items (some unavailable) ∷ broken streams

schedule-broken :
    {A : Type 0} (failures : ℕ) (streams : List (List A))
    → schedule failures (broken streams) ≡ map (λ _. 2) streams
schedule-broken failures [] = refl
schedule-broken failures (items ∷ streams) = ap (2 ∷◌) (schedule-broken 1 streams)

-- While every call opens a stream that later breaks, every wait is 2 seconds: the delay never grows.
pub run-broken :
    {A : Type 0} (streams : List (List A))
    → (run (broken streams) start).waits ≡ map (λ _. 2) streams
run-broken streams = run-schedule (broken streams) ∙ schedule-broken 0 streams
