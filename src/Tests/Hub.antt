-- ===== src/Tests/Hub.antt =====
-- Clients of api-server/Hubs/NetworkMonitorHub.cs, with groups that are a list of pairs.
use aether_lens.Prelude.{
  ◌≡◌, refl, Bool, true, false, ◌&&◌, ◌||◌, List, [], ◌∷◌, Text, codes, text_eq, text_eq_refl, All,
  arith,
}
use aether_lens.Server.Hub.{GroupManager, connect_all}
use aether_lens.Server.Hub.Members.{IsReached, connect_all-IsReached}

abbrev Pairs : Type 0
Pairs = List (Text × Text)

abbrev add_pair : Text → Text → Pairs → Pairs
add_pair id group pairs = (id, group) ∷ pairs

abbrev is_in : Text → Text → Pairs → Bool
is_in id group [] = false
is_in id group ((i, g) ∷ pairs) = text_eq id i && text_eq group g || is_in id group pairs

is_in-add_pair : (id group : Text) (pairs : Pairs) → is_in id group (add_pair id group pairs) ≡ true
is_in-add_pair id group pairs = rw (text_eq_refl id, text_eq_refl group) refl

is_in-add_pair_other :
    (id group other name : Text) (pairs : Pairs)
    → is_in id group pairs ≡ true
    → is_in id group (add_pair other name pairs) ≡ true
is_in-add_pair_other id group other name pairs h = ground arith

abbrev pairs : GroupManager
pairs = record {
  Groups = Pairs;
  add_to_group = add_pair;
  is_member = is_in;
  added = is_in-add_pair;
  kept = is_in-add_pair_other;
}

connect_all-IsReached_example :
    All
      (IsReached pairs (connect_all pairs (codes "a" ∷ codes "b" ∷ []) []))
      (codes "a" ∷ codes "b" ∷ [])
connect_all-IsReached_example = connect_all-IsReached pairs (codes "a" ∷ codes "b" ∷ []) []
