-- ===== src/System/Gather.antt =====
-- What the messages on the way to the dashboard carry of one kind.
use aether_lens.Prelude.{◌≡◌, refl, ap, sym, ◌∙◌, List, [], ◌∷◌, ◌++◌, append_assoc}
use aether_lens.Wire.{Message}

module _ {A : Type 0} (carried : Message → List A) where
  abbrev pub gather : List Message → List A
  gather [] = []
  gather (m ∷ wire) = carried m ++ gather wire

  pub gather-append :
      (wire rest : List Message) → gather (wire ++ rest) ≡ gather wire ++ gather rest
  gather-append [] rest = refl
  gather-append (m ∷ wire) rest =
      ap (carried m ++◌) (gather-append wire rest)
      ∙ sym (append_assoc (carried m) (gather wire) (gather rest))
