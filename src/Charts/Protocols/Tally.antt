-- ===== src/Charts/Protocols/Tally.antt =====
-- The slices of web-dashboard/src/components/ProtocolPieChart.tsx against the packets they count.
use aether_lens.Prelude.{
  ℕ, ◌+◌, ◌≡◌, refl, ap, sym, ◌∙◌, ◌⊎◌, inl, inr, ◌||◌, List, [], ◌∷◌, arith, Text, text_eq,
  text_eq_iff, length, Bool-cases, if◌then◌else◌,
}
use aether_lens.Types.{PacketUpdate}
use aether_lens.Charts.Protocols.{
  ProtocolData, tcp, udp, icmp, other, proto_of, Counts, count_packet, tally, slices, chart_data,
}

pub table : ℕ → ℕ → ℕ → ℕ → Counts
table a b c d = (tcp, a) ∷ (udp, b) ∷ (icmp, c) ∷ (other, d) ∷ []

-- The slice to which a packet belongs.
pub slice_of : PacketUpdate → Text
slice_of p =
    if text_eq (proto_of p) tcp || text_eq (proto_of p) udp || text_eq (proto_of p) icmp
    then proto_of p
    else other

unfoldable pub count_as : Text → List PacketUpdate → ℕ
count_as name [] = 0
count_as name (p ∷ ps) = (if text_eq (slice_of p) name then 1 else 0) + count_as name ps

-- The sum of the slices with the name.
pub value_of : Text → List ProtocolData → ℕ
value_of name [] = 0
value_of name (s ∷ rest) = (if text_eq s.name name then s.value else 0) + value_of name rest

pub total : List ProtocolData → ℕ
total [] = 0
total (s ∷ rest) = s.value + total rest

abbrev one_if : Text → Text → ℕ
one_if name key = if text_eq name key then 1 else 0

table_path : {a b c d e f g h : ℕ} → a ≡ e → b ≡ f → c ≡ g → d ≡ h → table a b c d ≡ table e f g h
table_path p q r s = λ i. table (p i) (q i) (r i) (s i)

count_packet-table :
    (p : PacketUpdate) (a b c d : ℕ)
    → count_packet p (table a b c d)
      ≡ table
          (a + one_if (slice_of p) tcp)
          (b + one_if (slice_of p) udp)
          (c + one_if (slice_of p) icmp)
          (d + one_if (slice_of p) other)
unfolding table count_packet slice_of text_eq
count_packet-table p a b c d = elim (Bool-cases (text_eq (proto_of p) tcp)) [
  | inl e ↦
      rw ((text_eq_iff (proto_of p) tcp).0 e, count_packet, slice_of)
        (table_path refl (omega arith) (omega arith) (omega arith))
  | inr not_tcp ↦ elim (Bool-cases (text_eq (proto_of p) udp)) [
    | inl e ↦
        rw ((text_eq_iff (proto_of p) udp).0 e, count_packet, slice_of)
          (table_path (omega arith) refl (omega arith) (omega arith))
    | inr not_udp ↦ elim (Bool-cases (text_eq (proto_of p) icmp)) [
      | inl e ↦
          rw ((text_eq_iff (proto_of p) icmp).0 e, count_packet, slice_of)
            (table_path (omega arith) (omega arith) refl (omega arith))
      | inr not_icmp ↦ elim (Bool-cases (text_eq (proto_of p) other)) [
        | inl e ↦
            rw ((text_eq_iff (proto_of p) other).0 e, count_packet, slice_of)
              (table_path (omega arith) (omega arith) (omega arith) refl)
        | inr not_other ↦
            rw (not_tcp, not_udp, not_icmp, not_other, count_packet, slice_of)
              (table_path (omega arith) (omega arith) (omega arith) refl)
      ]
    ]
  ]
]

tally-table :
    (ps : List PacketUpdate) (a b c d : ℕ)
    → tally ps (table a b c d)
      ≡ table
          (a + count_as tcp ps)
          (b + count_as udp ps)
          (c + count_as icmp ps)
          (d + count_as other ps)
unfolding tally count_as
tally-table [] a b c d = table_path (omega arith) (omega arith) (omega arith) (omega arith)
tally-table (p ∷ ps) a b c d = rw (count_packet-table p a b c d) (
    tally-table ps (a + one_if (slice_of p) tcp) (b + one_if (slice_of p) udp)
      (c + one_if (slice_of p) icmp) (d + one_if (slice_of p) other)
    ∙ table_path (omega arith) (omega arith) (omega arith) (omega arith))

pub chart_data-slices :
    (ps : List PacketUpdate)
    → chart_data ps
      ≡ slices (table (count_as tcp ps) (count_as udp ps) (count_as icmp ps) (count_as other ps))
unfolding chart_data table
chart_data-slices ps =
    ap slices (tally-table ps 0 0 0 0)
    ∙ ap slices (
        table_path {a = 0 + count_as tcp ps} {b = 0 + count_as udp ps} {c = 0 + count_as icmp ps}
          {d = 0 + count_as other ps} {e = count_as tcp ps} {f = count_as udp ps}
          {g = count_as icmp ps} {h = count_as other ps} (omega arith) (omega arith) (omega arith)
          (omega arith))

abbrev pick : Text → Text → ℕ → ℕ
pick name key n = if text_eq key name then n else 0

slice_cases :
    (p : PacketUpdate)
    → (slice_of p ≡ tcp) ⊎ ((slice_of p ≡ udp) ⊎ ((slice_of p ≡ icmp) ⊎ (slice_of p ≡ other)))
unfolding slice_of
slice_cases p = ground (
  arith,
  text_eq_iff (proto_of p) tcp,
  text_eq_iff (proto_of p) udp,
  text_eq_iff (proto_of p) icmp,
)

one_if-pick :
    (p : PacketUpdate) (name : Text)
    → one_if (slice_of p) name
      ≡ pick name tcp (one_if (slice_of p) tcp)
        + pick name udp (one_if (slice_of p) udp)
        + pick name icmp (one_if (slice_of p) icmp)
        + pick name other (one_if (slice_of p) other)
unfolding text_eq
one_if-pick p name = elim (slice_cases p) [
  | inl e ↦ rw e (ground arith)
  | inr (inl e) ↦ rw e (ground arith)
  | inr (inr (inl e)) ↦ rw e (ground arith)
  | inr (inr (inr e)) ↦ rw e (ground arith)
]

count_as-pick :
    (name : Text) (ps : List PacketUpdate)
    → count_as name ps
      ≡ pick name tcp (count_as tcp ps)
        + pick name udp (count_as udp ps)
        + pick name icmp (count_as icmp ps)
        + pick name other (count_as other ps)
unfolding count_as
count_as-pick name [] = ground arith
count_as-pick name (p ∷ ps) = ground (arith, one_if-pick p name, count_as-pick name ps)

value_of-slices :
    (name : Text) (a b c d : ℕ)
    → value_of name (slices (table a b c d))
      ≡ pick name tcp a + pick name udp b + pick name icmp c + pick name other d
unfolding value_of slices table
value_of-slices name a b c d = ground arith

-- The slice of each name shows the number of packets that belong to it: those whose protocol, in
-- capitals, is TCP, UDP or ICMP belong to the slice of that name, and all the others to OTHER.
pub value_of-chart_data :
    (name : Text) (ps : List PacketUpdate) → value_of name (chart_data ps) ≡ count_as name ps
value_of-chart_data name ps =
    rw (chart_data-slices ps, value_of-slices name) (sym (count_as-pick name ps))

total-slices : (a b c d : ℕ) → total (slices (table a b c d)) ≡ a + b + c + d
unfolding total slices table
total-slices a b c d = ground arith

one_if_all :
    (p : PacketUpdate)
    → one_if (slice_of p) tcp
        + one_if (slice_of p) udp
        + one_if (slice_of p) icmp
        + one_if (slice_of p) other
      ≡ 1
unfolding text_eq
one_if_all p = elim (slice_cases p) [
  | inl e ↦ rw e
  | inr (inl e) ↦ rw e
  | inr (inr (inl e)) ↦ rw e
  | inr (inr (inr e)) ↦ rw e
]

count_as_all :
    (ps : List PacketUpdate)
    → count_as tcp ps + count_as udp ps + count_as icmp ps + count_as other ps ≡ length ps
unfolding count_as
count_as_all [] = omega arith
count_as_all (p ∷ ps) = omega (arith, one_if_all p, count_as_all ps)

-- Together the slices show every packet of the store once.
pub total-chart_data : (ps : List PacketUpdate) → total (chart_data ps) ≡ length ps
total-chart_data ps = rw (chart_data-slices ps, total-slices) (count_as_all ps)
