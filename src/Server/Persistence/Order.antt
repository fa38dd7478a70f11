-- ===== src/Server/Persistence/Order.antt =====
-- The rows that api-server/Persistence/PacketPersistenceWorker.cs stores against the packets that
-- arrived.
use mathlib.Core.List.{Sublist}
use mathlib.Core.List.Sublist
use mathlib.Core.Path.{subst}
use aether_lens.Prelude.{
  ℕ, ◌≡◌, refl, ap, sym, ◌∙◌, List, [], ◌∷◌, ◌++◌, length, ltb, Bool-cases, inl, inr, append_assoc,
  append-nil, Sublist-tail, Sublist-nil, Sublist-after,
}
use aether_lens.Server.Persistence.{
  Attempts, Worker, Event, arrive, turn, fill, bulk_insert, flush, round, take_turn, enqueue,
  channel_capacity, step, run,
}

-- All packets that the worker and its channel have, stored ones first.
abbrev pub content : {A : Type 0} → Worker A → List A
content w = w.stored ++ (w.buffer ++ w.waiting)

-- The packets that arrive in a row of events.
abbrev pub arrivals : {A : Type 0} → List (Event A) → List A
arrivals [] = []
arrivals (arrive x ∷ events) = x ∷ arrivals events
arrivals (turn answers ∷ events) = arrivals events

fill-Sublist :
    {A : Type 0} (buffer waiting : List A)
    → Sublist ((fill buffer waiting).0 ++ (fill buffer waiting).1) (buffer ++ waiting)
unfolding fill
fill-Sublist buffer [] = Sublist.refl (buffer ++ [])
fill-Sublist buffer (x ∷ waiting) = elim (Bool-cases (ltb (length buffer) 256)) [
  | inl free ↦ rw free (
      subst (Sublist _) (append_assoc buffer (x ∷ []) waiting)
        (fill-Sublist (buffer ++ x ∷ []) waiting))
  | inr full ↦ rw full (Sublist-after buffer waiting (x ∷ waiting) (Sublist-tail x waiting))
]

pub enqueue-Sublist :
    {A : Type 0} (limit : ℕ) (x : A) (waiting : List A)
    → Sublist (enqueue limit x waiting) (waiting ++ x ∷ [])
unfolding enqueue
enqueue-Sublist limit x [] = Sublist.refl (x ∷ [])
enqueue-Sublist limit x (oldest ∷ waiting) =
    elim (Bool-cases (ltb (length (oldest ∷ waiting)) limit)) [
      | inl free ↦ rw free (Sublist.refl (oldest ∷ (waiting ++ x ∷ [])))
      | inr full ↦ rw full (Sublist-tail oldest (waiting ++ x ∷ []))
    ]

content-flush :
    {A : Type 0} (answers : Attempts) (batch waiting stored : List A)
    → content (flush answers (batch, waiting) stored) ≡ stored ++ (batch ++ waiting)
unfolding flush bulk_insert
content-flush answers batch waiting stored = elim (Bool-cases answers.first) [
  | inl once ↦ rw once (append_assoc stored batch waiting)
  | inr failed ↦ elim (Bool-cases answers.second) [
    | inl again ↦ rw (failed, again) (append_assoc stored batch waiting)
    | inr failed_again ↦ rw (failed, failed_again)
  ]
]

content-take_turn :
    {A : Type 0} (answers : Attempts) (w : Worker A) (waiting : List A)
    → w.waiting ≡ waiting
    → Sublist (content (take_turn answers w waiting)) (w.stored ++ (w.buffer ++ waiting))
unfolding take_turn
content-take_turn answers w [] e = rw e (Sublist.refl _)
content-take_turn answers w (x ∷ waiting) e =
    let filled = fill (w.buffer ++ x ∷ []) waiting in
    rw (content-flush answers filled.0 filled.1 w.stored) (
      Sublist-after w.stored (filled.0 ++ filled.1) (w.buffer ++ x ∷ waiting) (
        subst (Sublist _) (append_assoc w.buffer (x ∷ []) waiting)
          (fill-Sublist (w.buffer ++ x ∷ []) waiting)))

-- What one event may add at the end.
pub content-step :
    {A : Type 0} (e : Event A) (w : Worker A)
    → Sublist (content (step e w)) (content w ++ arrivals (e ∷ []))
unfolding step round
content-step (arrive x) w =
    subst (Sublist _)
      (ap (w.stored ++◌) (sym (append_assoc w.buffer w.waiting (x ∷ [])))
        ∙ sym (append_assoc w.stored (w.buffer ++ w.waiting) (x ∷ [])))
      (Sublist-after w.stored _ _
        (Sublist-after w.buffer _ _ (enqueue-Sublist channel_capacity x w.waiting)))
content-step (turn answers) w = rw append-nil (content-take_turn answers w w.waiting refl)

content-run :
    {A : Type 0} (events : List (Event A)) (w : Worker A)
    → Sublist (content (run events w)) (content w ++ arrivals events)
unfolding run
content-run [] w = rw append-nil (Sublist.refl (content w))
content-run (arrive x ∷ events) w = Sublist.trans (content-run events (step (arrive x) w)) (
    subst (Sublist _) (append_assoc (content w) (x ∷ []) (arrivals events))
      (Sublist.append (content-step (arrive x) w) (Sublist.refl (arrivals events))))
content-run (turn answers ∷ events) w = Sublist.trans (content-run events (step (turn answers) w)) (
    Sublist.append (subst (Sublist _) (append-nil (content w)) (content-step (turn answers) w))
      (Sublist.refl (arrivals events)))

-- The worker at its start.
abbrev pub idle : {A : Type 0} → Worker A
idle = record { waiting = []; buffer = []; stored = [] }

-- Whatever arrives and whatever the database answers, the rows of the table are a part of the
-- packets that arrived, each at most once and in the order of arrival.
pub stored-Sublist :
    {A : Type 0} (events : List (Event A)) → Sublist (run events idle).stored (arrivals events)
stored-Sublist events =
    let w = run events idle in
    Sublist.trans
      (subst (λ l. Sublist l (content w)) (append-nil w.stored)
        (Sublist-after w.stored [] _ (Sublist-nil (w.buffer ++ w.waiting))))
      (content-run events idle)
