-- ===== src/Panels/Format.antt =====
-- web-dashboard/src/lib/utils.ts, and `formatBytes` of components/ProcessTracker.tsx. Values are not
-- negative and below 2 ^ 53.
pub mod Units
use aether_lens.Prelude.{ℕ, ◌-◌, ◌*◌, ◌/◌, ◌^◌, ◌∷◌, ◌++◌, Text, codes, ltb, leb, if◌then◌else◌}
use aether_lens.Number.{Double, integer, is_le, quotient, number_text, to_fixed}

-- `x / n`
abbrev div : Double → ℕ → Double
div x n = quotient x.mantissa (n * 2 ^ x.scale)

unfoldable pub format_usd : Double → Text
format_usd value =
    if is_le (integer 1_000_000) value
    then b'$' ∷ (to_fixed 2 (div value 1_000_000) ++ codes "M")
    else if is_le (integer 1_000) value
    then b'$' ∷ (to_fixed 1 (div value 1_000) ++ codes "K")
    else b'$' ∷ to_fixed 2 value

unfoldable pub format_qty : Double → Text
format_qty value = if is_le (integer 1) value then to_fixed 4 value else to_fixed 6 value

-- `now` is `Date.now()`. Where `ts` lies in the future the difference is negative in the program
-- and 0 here: both are below 5.
unfoldable pub time_ago : ℕ → ℕ → Text
time_ago now ts =
    let diff = (now - ts) / 1000 in
    if ltb diff 5
    then codes "just now"
    else if ltb diff 60
    then number_text diff ++ codes "s ago"
    else number_text (diff / 60) ++ codes "m ago"

unfoldable pub format_bytes : ℕ → Text
format_bytes bytes =
    if leb 1_000_000_000 bytes
    then to_fixed 2 (quotient bytes 1_000_000_000) ++ codes " GB/s"
    else if leb 1_000_000 bytes
    then to_fixed 2 (quotient bytes 1_000_000) ++ codes " MB/s"
    else if leb 1_000 bytes
    then to_fixed 2 (quotient bytes 1_000) ++ codes " KB/s"
    else number_text bytes ++ codes " B/s"
