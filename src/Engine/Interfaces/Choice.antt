-- ===== src/Engine/Interfaces/Choice.antt =====
-- Which interface core-engine/src/network/stream.rs chooses by itself.
use aether_lens.Prelude.{
  ℕ, ◌≤◌, ◌<◌, ◌≡◌, ◌⊎◌, inl, inr, refl, ap, Bool-cases, Option, none, some, List, [], ◌∷◌, ◌++◌,
  filter, head?, All, leb, arith,
}
use aether_lens.Engine.Interfaces.{
  Interface, preference, is_candidate, insert_preferred, sort_candidates, select_interface,
}

-- `i` is the first of the most preferred in the list.
abbrev pub FirstBest : List Interface → Interface → Type 0
FirstBest candidates i =
    (before : List Interface) × (after : List Interface) × (candidates ≡ before ++ i ∷ after)
    × All (λ j. preference j < preference i) before
    × All (λ j. preference j ≤ preference i) after

abbrev pub Chosen : List Interface → Option Interface → Type 0
Chosen candidates chosen =
    ((candidates ≡ []) × (chosen ≡ none))
    ⊎ ((i : Interface) × (chosen ≡ some i) × FirstBest candidates i)

All-weaken :
    (n m : ℕ) (js : List Interface)
    → m ≤ n
    → All (λ j. preference j ≤ m) js
    → All (λ j. preference j ≤ n) js
All-weaken n m [] h l = tt
All-weaken n m (x ∷ js) h (l, ls) = (omega arith, All-weaken n m js h ls)

-- Those before the best and those after it are no better than something at least as good.
All-le :
    (n : ℕ) (before : List Interface) (i : Interface) (after : List Interface)
    → preference i ≤ n
    → All (λ j. preference j < preference i) before
    → All (λ j. preference j ≤ preference i) after
    → All (λ j. preference j ≤ n) (before ++ i ∷ after)
All-le n [] i after h first later = (h, All-weaken n (preference i) after h later)
All-le n (j ∷ before) i after h (k, first) later =
    (omega arith, All-le n before i after h first later)

-- The head of the sorted list, with the list behind it.
Sorted : List Interface → List Interface → Type 0
Sorted candidates sorted =
    ((candidates ≡ []) × (sorted ≡ []))
    ⊎ ((i : Interface) × (rest : List Interface) × (sorted ≡ i ∷ rest) × FirstBest candidates i)

insert_preferred-Sorted :
    (i : Interface) (candidates sorted : List Interface)
    → Sorted candidates sorted
    → Sorted (i ∷ candidates) (insert_preferred i sorted)
unfolding Sorted insert_preferred
insert_preferred-Sorted i candidates sorted (inl (none_left, empty)) =
    inr (i, [], rw empty refl, ([], [], rw none_left, tt, tt))
insert_preferred-Sorted i candidates sorted
      (inr (j, rest, e, (before, after, split, first, later))) =
    elim (Bool-cases (leb (preference j) (preference i))) [
      | inl worse ↦ inr (
        i,
        j ∷ rest,
        rw (e, worse) refl,
        (
          [],
          candidates,
          refl,
          tt,
          rw split (All-le (preference i) before j after (ground (arith, worse)) first later),
        ),
      )
      | inr better ↦ inr (
        j,
        insert_preferred i rest,
        rw (e, better) refl,
        (i ∷ before, after, rw split refl, (ground (arith, better), first), later),
      )
    ]

sort_candidates-Sorted :
    (candidates : List Interface) → Sorted candidates (sort_candidates candidates)
unfolding Sorted sort_candidates
sort_candidates-Sorted [] = inl (refl, refl)
sort_candidates-Sorted (i ∷ candidates) =
    insert_preferred-Sorted i candidates _ (sort_candidates-Sorted candidates)

-- Without a configured address no interface is chosen exactly if none is a candidate, that is, no
-- loopback and with an address; else the first candidate in the order found than which no other is
-- preferred.
pub select_interface-Chosen :
    (interfaces : List Interface)
    → Chosen (filter is_candidate interfaces) (select_interface none interfaces)
unfolding select_interface Sorted
select_interface-Chosen interfaces =
    elim (sort_candidates-Sorted (filter is_candidate interfaces)) [
      | inl (none_left, empty) ↦ inl (none_left, ap head? empty)
      | inr (i, rest, e, best) ↦ inr (i, ap head? e, best)
    ]
