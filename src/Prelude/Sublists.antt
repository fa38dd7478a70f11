-- ===== src/Prelude/Sublists.antt =====
-- Parts of a list in its order: the library's `Sublist`, with the lemmas that chains of queues need.
use mathlib.Core.Path.{◌≡◌, ap, sym, subst}
use mathlib.Core.Logic.{∥∥₁_map}
use mathlib.Core.List.{List, [], ◌∷◌, ◌++◌, map, append_assoc, append-nil, Sublist, Sublistᴰ}
use mathlib.Core.List.Sublist

pub Sublist-tail : {A : Type 0} (x : A) (xs : List A) → Sublist xs (x ∷ xs)
Sublist-tail x xs = Sublist.cons x (Sublist.refl xs)

pub Sublist-nil : {A : Type 0} (xs : List A) → Sublist [] xs
Sublist-nil [] = Sublist.refl []
Sublist-nil (x ∷ xs) = Sublist.cons x (Sublist-nil xs)

pub Sublist-after : {A : Type 0} (xs ys zs : List A) → Sublist ys zs → Sublist (xs ++ ys) (xs ++ zs)
Sublist-after xs ys zs h = Sublist.append (Sublist.refl xs) h

pub Sublist-front :
    {A : Type 0} {xs ys : List A} (zs : List A) → Sublist xs ys → Sublist (xs ++ zs) (ys ++ zs)
Sublist-front zs h = Sublist.append h (Sublist.refl zs)

pub Sublist-eq : {A : Type 0} {xs ys : List A} → xs ≡ ys → Sublist xs ys
Sublist-eq {A} {xs} e = subst (Sublist xs) e (Sublist.refl xs)

-- The beginning of a part.
pub Sublist-begin : {A : Type 0} (xs ys zs : List A) → Sublist (xs ++ ys) zs → Sublist xs zs
Sublist-begin xs ys zs h =
    Sublist.trans
      (subst (λ l. Sublist l (xs ++ ys)) (append-nil xs) (Sublist-after xs [] ys (Sublist-nil ys)))
      h

-- Parts of two lists, one behind the other, where the second has more at its end.
pub Sublist-join :
    {A : Type 0} (vs ws : List A) {xs ys us : List A}
    → Sublist xs ys
    → Sublist us (vs ++ ws)
    → Sublist (xs ++ us) ((ys ++ vs) ++ ws)
Sublist-join vs ws {xs} {ys} {us} h k =
    subst (Sublist (xs ++ us)) (sym (append_assoc ys vs ws)) (Sublist.append h k)

module _ {A B : Type 0} (f : A → B) where
  map-Sublistᴰ : {xs ys : List A} → Sublistᴰ xs ys → Sublistᴰ (map f xs) (map f ys)
  map-Sublistᴰ Sublistᴰ.slnil = Sublistᴰ.slnil
  map-Sublistᴰ (Sublistᴰ.cons d) = Sublistᴰ.cons (map-Sublistᴰ d)
  map-Sublistᴰ (Sublistᴰ.cons-cons e d) = Sublistᴰ.cons-cons (ap f e) (map-Sublistᴰ d)

  pub Sublist-map : {xs ys : List A} → Sublist xs ys → Sublist (map f xs) (map f ys)
  Sublist-map h = ∥∥₁_map h map-Sublistᴰ
