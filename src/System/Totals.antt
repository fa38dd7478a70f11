-- ===== src/System/Totals.antt =====
-- The bytes of the packets of a process, in a list of the engine's messages and in a part of it.
use mathlib.Core.List.{Sublist, Sublistᴰ}
use native.Mathlib.Bridge.{le_prop}
use aether_lens.Prelude.{
  ℕ, ◌+◌, ◌≤◌, ◌≡◌, ap, List, [], ◌∷◌, ◌++◌, arith, Text, text_eq, if◌then◌else◌,
}
use aether_lens.Engine.Messages.{PacketMessage}

abbrev pub bytes_of : Text → List PacketMessage → ℕ
bytes_of k [] = 0
bytes_of k (m ∷ ms) = (if text_eq k m.process then m.bytes else 0) + bytes_of k ms

pub bytes_of-append :
    (k : Text) (xs ys : List PacketMessage) → bytes_of k (xs ++ ys) ≡ bytes_of k xs + bytes_of k ys
bytes_of-append k [] ys = omega arith
bytes_of-append k (x ∷ xs) ys = omega (arith, bytes_of-append k xs ys)

bytes_of-part :
    (k : Text) {xs ys : List PacketMessage} → Sublistᴰ xs ys → bytes_of k xs ≤ bytes_of k ys
bytes_of-part k Sublistᴰ.slnil = omega arith
bytes_of-part k (Sublistᴰ.cons d) = omega (arith, bytes_of-part k d)
bytes_of-part k (Sublistᴰ.cons-cons e d) =
    omega (arith, bytes_of-part k d, ap (λ m. if text_eq k m.process then m.bytes else 0) e)

pub bytes_of-Sublist :
    (k : Text) {xs ys : List PacketMessage} → Sublist xs ys → bytes_of k xs ≤ bytes_of k ys
bytes_of-Sublist k h = ∥∥₁_rec le_prop (bytes_of-part k) h
