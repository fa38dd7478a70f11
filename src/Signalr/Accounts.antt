-- ===== src/Signalr/Accounts.antt =====
-- What became of each connection that `useSignalR` of web-dashboard/src/lib/signalr.ts built.
use aether_lens.Prelude.{ℕ, ◌+◌, ◌<◌, ◌≡◌, ◌⊎◌, Bool, true, false, none, some, List, [], ◌∷◌, arith}
use aether_lens.Signalr.{Call, stopped, Client, Operation, mounts, unmounts, step, run}

abbrev pub View : Type 0
View = ℕ → Bool

-- The call is among those made.
abbrev pub Made : Call → List Call → Type 0
Made a [] = ⊥
Made a (b ∷ calls) = (a ≡ b) ⊎ Made a calls

-- In one of the steps from `c` on, a connection that was built before it is in the state `Disconnected`.
abbrev pub SeenOff : ℕ → List (View × Operation) → Client → Type 0
SeenOff i [] c = ⊥
SeenOff i ((off, op) ∷ ops) c = ((i < c.next) × (off i ≡ true)) ⊎ SeenOff i ops (step off op c)

-- A connection that a step builds is in the state `Disconnected` then, as SignalR documents of new ones.
abbrev pub IsNewOff : View → Operation → Client → Type 0
IsNewOff off mounts c = off c.next ≡ true
IsNewOff off _ c = Unit

abbrev pub BuiltOff : List (View × Operation) → Client → Type 0
BuiltOff [] c = Unit
BuiltOff ((off, op) ∷ ops) c = IsNewOff off op c × BuiltOff ops (step off op c)

-- The connection is the current one, or was stopped by a call.
abbrev pub IsKept : Client → ℕ → Type 0
IsKept c i = (c.connection ≡ some i) ⊎ Made (stopped i) c.calls

-- React's strict mode mounts the hook, unmounts it and mounts it again. From a client that has no
-- connection this builds two, and the second is the current one; the first was stopped, provided
-- that the library did not have it disconnected when the hook was unmounted.
pub run_strict :
    (first second third : View) (c : Client)
    → c.connection ≡ none
    → second c.next ≡ false
    → ((run ((first, mounts) ∷ (second, unmounts) ∷ (third, mounts) ∷ []) c).connection
        ≡ some (c.next + 1))
      × Made
          (stopped c.next)
          (run ((first, mounts) ∷ (second, unmounts) ∷ (third, mounts) ∷ []) c).calls
unfolding run
run_strict first second third c e live = (ground arith, ground arith)
