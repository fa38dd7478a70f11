-- ===== src/System/Transit.antt =====
-- What is on the way from a queue of the engine, through a stream, to a channel of the server, and what
-- each end may do to it.
use mathlib.Core.List.{Sublist, map-append}
use mathlib.Core.Path.{subst}
use aether_lens.Prelude.{
  ℕ, ◌≡◌, List, [], ◌∷◌, ◌++◌, map, append_assoc, append-nil, Sublist-tail, Sublist-nil,
  Sublist-after, Sublist-front,
}
use aether_lens.Server.Persistence.{enqueue}
use aether_lens.Server.Persistence.Order.{enqueue-Sublist}

module _ {A B : Type 0} (f : A → B) (channel stream : List B) (queue : List A) where
  -- First things first.
  abbrev pub passing : List B
  passing = channel ++ (stream ++ map f queue)

  pub queued : (new : List A) → channel ++ (stream ++ map f (queue ++ new)) ≡ passing ++ map f new
  queued new = simp (map-append, append_assoc)

  pub broadcasted :
      (x : A) (rest : List A)
      → queue ≡ x ∷ rest
      → channel ++ ((stream ++ f x ∷ []) ++ map f rest) ≡ passing ++ []
  broadcasted x rest e = rw (e, append-nil) (simp append_assoc)

  pub dropped :
      (x : A) (rest : List A)
      → queue ≡ x ∷ rest
      → Sublist (channel ++ (stream ++ map f rest)) (passing ++ [])
  dropped x rest e =
      rw (e, append-nil)
        (Sublist-after channel _ _ (Sublist-after stream _ _ (Sublist-tail (f x) (map f rest))))

  pub lagged :
      (m : B) (rest : List B)
      → stream ≡ m ∷ rest
      → Sublist (channel ++ (rest ++ map f queue)) (passing ++ [])
  lagged m rest e =
      rw (e, append-nil) (Sublist-after channel _ _ (Sublist-tail m (rest ++ map f queue)))

  pub broken : Sublist (channel ++ map f queue) (passing ++ [])
  broken =
      rw append-nil (Sublist-after channel _ _ (Sublist-front (map f queue) (Sublist-nil stream)))

  -- A full channel drops its oldest item.
  pub written :
      (limit : ℕ) (m : B) (rest : List B)
      → stream ≡ m ∷ rest
      → Sublist (enqueue limit m channel ++ (rest ++ map f queue)) (passing ++ [])
  written limit m rest e =
      rw (e, append-nil)
        (subst (Sublist _) (append_assoc channel (m ∷ []) (rest ++ map f queue))
          (Sublist-front (rest ++ map f queue) (enqueue-Sublist limit m channel)))

  pub was_read :
      (m : B) (rest : List B) → channel ≡ m ∷ rest → passing ≡ m ∷ (rest ++ (stream ++ map f queue))
  was_read m rest e = rw e
