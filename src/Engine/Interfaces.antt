-- ===== src/Engine/Interfaces.antt =====
-- The choice of the network interface in `run_sniffer_loop` of core-engine/src/network/stream.rs, from
-- the interfaces that pnet finds. Names are ASCII for `to_lowercase`, and `sort_by` is written as a
-- stable insertion sort, which gives the one result that a stable sort has.
pub mod Choice
use aether_lens.Prelude.{
  ℕ, ◌+◌, Bool, true, false, not, ◌&&◌, ◌||◌, Option, none, some, List, [], ◌∷◌, map, filter, head?,
  Text, codes, text_eq, ltb, leb, ◌==◌, if◌then◌else◌,
}

-- The addresses are printed.
pub record Interface : Type 0 where
  pub name : Text
  pub is_loopback : Bool
  pub ips : List Text

abbrev lower : ℕ → ℕ
lower c = if ltb c b'A' || ltb b'Z' c then c else c + 32

begins : Text → Text → Bool
begins [] s = true
begins (p ∷ ps) [] = false
begins (p ∷ ps) (c ∷ s) = p == c && begins ps s

-- `s.contains(part)`
contains : Text → Text → Bool
unfolding begins
contains part [] = begins part []
contains part (c ∷ s) = begins part (c ∷ s) || contains part s

-- `a_score` and `b_score`
unfoldable pub preference : Interface → ℕ
unfolding contains
preference i =
    let name = map lower i.name in
    if contains (codes "wi-fi") name then 2 else if contains (codes "ethernet") name then 1 else 0

is_empty {ℓ} : {A : Type ℓ} → List A → Bool
is_empty [] = true
is_empty (x ∷ xs) = false

unfoldable pub is_candidate : Interface → Bool
unfolding is_empty
is_candidate i = not i.is_loopback && not (is_empty i.ips)

-- Behind those that are preferred, before those that are not.
insert_preferred : Interface → List Interface → List Interface
insert_preferred i [] = i ∷ []
insert_preferred i (j ∷ sorted) =
    let later = j ∷ insert_preferred i sorted in
    if leb (preference j) (preference i) then i ∷ j ∷ sorted else later

-- `candidates.sort_by(|a, b| b_score.cmp(&a_score))`
unfoldable pub sort_candidates : List Interface → List Interface
unfolding insert_preferred
sort_candidates [] = []
sort_candidates (i ∷ candidates) = insert_preferred i (sort_candidates candidates)

has_ip : Text → List Text → Bool
unfolding text_eq
has_ip target [] = false
has_ip target (ip ∷ ips) = text_eq ip target || has_ip target ips

find_ip : Text → List Interface → Option Interface
unfolding has_ip
find_ip target [] = none
find_ip target (i ∷ interfaces) =
    let rest = find_ip target interfaces in if has_ip target i.ips then some i else rest

-- With `CAPTURE_INTERFACE_IP` the first interface that has the address, else the first candidate.
unfoldable pub select_interface : Option Text → List Interface → Option Interface
unfolding find_ip sort_candidates is_candidate
select_interface (some target) interfaces = find_ip target interfaces
select_interface none interfaces = head? (sort_candidates (filter is_candidate interfaces))
