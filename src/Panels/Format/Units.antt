-- ===== src/Panels/Format/Units.antt =====
-- The rates that `formatBytes` of web-dashboard/src/components/ProcessTracker.tsx prints, and the
-- byte counts behind them.
use aether_lens.Prelude.{
  ℕ, ◌*◌, ◌^◌, ◌≤◌, ◌<◌, ◌≡◌, refl, ◌⊎◌, inl, inr, ◌++◌, arith, Text, codes, leb, leb→le, le→leb,
  true, Bool-cases,
}
use aether_lens.Number.{fixed_text, to_fixed, quotient, fixed_digits}
use aether_lens.Number.Rounding.{Close, fixed_digits-Close}
use aether_lens.Panels.Format.{format_bytes}

-- The size of each unit, and its name.
pub data IsUnit (size : ℕ) (suffix : Text) : Type 0 where
  kilo : size ≡ 1_000 → suffix ≡ codes " KB/s" → IsUnit size suffix
  mega : size ≡ 1_000_000 → suffix ≡ codes " MB/s" → IsUnit size suffix
  giga : size ≡ 1_000_000_000 → suffix ≡ codes " GB/s" → IsUnit size suffix

-- The text shows `hundredths` of a unit, which are within one of the exact value; the unit is not
-- above the value, and the value is below a thousand units unless there is no larger unit.
pub record Shows (bytes : ℕ) (text : Text) : Type 0 where
  pub size : ℕ
  pub suffix : Text
  pub hundredths : ℕ
  pub unit : IsUnit size suffix
  pub printed : text ≡ fixed_text 2 hundredths ++ suffix
  pub reached : size ≤ bytes
  pub largest : (bytes < 1_000 * size) ⊎ (size ≡ 1_000_000_000)
  pub close : Close bytes size hundredths

shows :
    (bytes size : ℕ) (suffix : Text)
    → IsUnit size suffix
    → 1_000 ≤ size
    → bytes < 2 ^ 53
    → size ≤ bytes
    → (bytes < 1_000 * size) ⊎ (size ≡ 1_000_000_000)
    → Shows bytes (to_fixed 2 (quotient bytes size) ++ suffix)
unfolding to_fixed
shows bytes size suffix unit big small reached largest = record {
  size = size;
  suffix = suffix;
  hundredths = fixed_digits 2 (quotient bytes size);
  unit = unit;
  printed = refl;
  reached = reached;
  largest = largest;
  close = fixed_digits-Close bytes size (omega arith) (omega arith);
}

-- From a thousand bytes up, and below 2 ^ 53, `formatBytes` prints the value in the largest of KB,
-- MB and GB that it reaches, with two decimals that are within a hundredth of the exact value.
pub format_bytes-Shows :
    (bytes : ℕ) → 1_000 ≤ bytes → bytes < 2 ^ 53 → Shows bytes (format_bytes bytes)
unfolding format_bytes
format_bytes-Shows bytes large small = elim (Bool-cases (leb 1_000_000_000 bytes)) [
  | inl gb ↦
      rw gb (
        shows bytes 1_000_000_000 _ (giga refl refl) (omega arith) small (leb→le _ _ gb) (inr refl))
  | inr below_gb ↦ elim (Bool-cases (leb 1_000_000 bytes)) [
    | inl mb ↦
        rw (below_gb, mb)
          (shows bytes 1_000_000 _ (mega refl refl) (omega arith) small (leb→le _ _ mb)
            (inl (ground arith)))
    | inr below_mb ↦
        let kb : leb 1_000 bytes ≡ true = le→leb 1_000 bytes large in
        rw (below_gb, below_mb, kb)
          (shows bytes 1_000 _ (kilo refl refl) (omega arith) small large (inl (ground arith)))
  ]
]
