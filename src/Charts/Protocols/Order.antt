-- ===== src/Charts/Protocols/Order.antt =====
-- The slices of web-dashboard/src/components/ProtocolPieChart.tsx as a function of the packets without their
-- order, a multiset.
use mathlib.Core.List.{Perm, Permᴰ}
use mathlib.Core.Quot.{lift, sound}
use mathlib.Mathlib.Data.Multiset.Defs.{Multiset, of_list}
use native.Mathlib.Nat.{ℕ_set}
use aether_lens.Prelude.{
  ℕ, ◌+◌, ◌≡◌, refl, ap, ap₂, ◌∙◌, sym, List, arith, Text, text_eq, if◌then◌else◌,
}
use aether_lens.Types.{PacketUpdate}
use aether_lens.Charts.Protocols.{ProtocolData, tcp, udp, icmp, other, slices, chart_data}
use aether_lens.Charts.Protocols.Tally.{table, slice_of, count_as, chart_data-slices}

count_as-Permᴰ :
    (name : Text) {xs ys : List PacketUpdate} → Permᴰ xs ys → count_as name xs ≡ count_as name ys
unfolding count_as
count_as-Permᴰ name Permᴰ.nil = refl
count_as-Permᴰ name (Permᴰ.cons e d) =
    ap₂ (λ p (n : ℕ). (if text_eq (slice_of p) name then 1 else 0) + n) e (count_as-Permᴰ name d)
count_as-Permᴰ name (Permᴰ.swap e f) =
    let one : PacketUpdate → ℕ = λ p. if text_eq (slice_of p) name then 1 else 0 in
    omega (arith, ap one e, ap one f)
count_as-Permᴰ name (Permᴰ.trans c d) = count_as-Permᴰ name c ∙ count_as-Permᴰ name d

pub count_as-Perm :
    (name : Text) (xs ys : List PacketUpdate) → Perm xs ys → count_as name xs ≡ count_as name ys
count_as-Perm name xs ys h = ∥∥₁_rec (ℕ_set _ _) (count_as-Permᴰ name) h

-- How many packets belong to the slice, in any order.
abbrev pub count_in : Text → Multiset PacketUpdate → ℕ
count_in name packets = lift ℕ_set (count_as name) (count_as-Perm name) packets

pub slices_of : Multiset PacketUpdate → List ProtocolData
slices_of packets = slices (
    table (count_in tcp packets) (count_in udp packets) (count_in icmp packets)
      (count_in other packets))

-- The chart of any list of packets is that of the multiset of its packets, which counts those of each slice.
pub chart_data-of_list : (ps : List PacketUpdate) → chart_data ps ≡ slices_of (of_list ps)
unfolding slices_of
chart_data-of_list ps = chart_data-slices ps

-- So packets in another order give the same chart.
pub chart_data-Perm : (ps qs : List PacketUpdate) → Perm ps qs → chart_data ps ≡ chart_data qs
chart_data-Perm ps qs h =
    chart_data-of_list ps ∙ ap slices_of (sound h) ∙ sym (chart_data-of_list qs)
