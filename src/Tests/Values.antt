-- ===== src/Tests/Values.antt =====
-- Messages, numbers, panels, endpoints and the clock on small inputs.
use aether_lens.Prelude.{◌≡◌, refl, none, some, arith, codes, text_eq}
use aether_lens.Number.{integer, is_le, number_text, quotient, fixed_digits, to_fixed}
use aether_lens.Number.Decimal.{read_from, read_from-number_text}
use aether_lens.Number.Rounding.{Close, fixed_digits-Close}
use aether_lens.Camelize.{
  null, number, array, object, nil, cons, Fields, end, field, get, camelize, camelize_fields,
  camelize_key, put,
}
use aether_lens.Camelize.Idempotent.{camelize_idem}
use aether_lens.Camelize.Lookup.{last_as, get-camelize}
use aether_lens.Panels.Format.{format_bytes, format_usd, format_qty, time_ago}
use aether_lens.Panels.Format.Units.{Shows, format_bytes-Shows}
use aether_lens.Panels.Health.{displayed, no_health}
use aether_lens.Panels.Health.Latency.{displayed_zero}
use aether_lens.Clock.{clock_text}
use aether_lens.Clock.Layout.{without, clock_text-iso}

-- Two keys that become one: the first place and the last value stay.
abbrev doubled : Fields
doubled = field (codes "Bytes") (number (integer 1)) (
    field (codes "Inner") (array (cons (object (field (codes "A") null end)) nil))
      (field (codes "bytes") (number (integer 2)) end))

doubled_camelized :
    camelize (object doubled)
    ≡ object (
        field
          (codes "bytes")
          (number (integer 2))
          (field (codes "inner") (array (cons (object (field (codes "a") null end)) nil)) end))
unfolding camelize camelize_key put text_eq
doubled_camelized = refl

camelize_idem_example : camelize (camelize (object doubled)) ≡ camelize (object doubled)
camelize_idem_example = camelize_idem (object doubled)

get-camelize_example :
    get (codes "bytes") (camelize_fields end doubled) ≡ last_as (codes "bytes") none doubled
get-camelize_example = get-camelize (codes "bytes") doubled

read_from-number_text_example : read_from 0 (number_text 65_535) ≡ 65_535
read_from-number_text_example = read_from-number_text 65_535

fixed_digits-Close_example : Close 1_005 1_000 (fixed_digits 2 (quotient 1_005 1_000))
fixed_digits-Close_example = fixed_digits-Close 1_005 1_000 (omega arith) (omega arith)

-- 1.005 has no exact double: the nearest lies below it.
formats :
    (format_bytes 1_005_000 ≡ codes "1.00 MB/s")
    × (format_bytes 999_999 ≡ codes "1000.00 KB/s")
    × (format_bytes 999 ≡ codes "999 B/s")
    × (format_usd (integer 1_234_567) ≡ codes "$1.23M")
    × (format_usd (integer 1_550) ≡ codes "$1.6K")
    × (format_qty (record { mantissa = 1; scale = 1 }) ≡ codes "0.500000")
    × (time_ago 200_000 3_000 ≡ codes "3m ago")
unfolding format_bytes format_usd format_qty time_ago to_fixed number_text quotient is_le
formats = (refl, refl, refl, refl, refl, refl, refl)

format_bytes-Shows_example : Shows 1_536 (format_bytes 1_536)
format_bytes-Shows_example = format_bytes-Shows 1_536 (omega arith) (omega arith)

displayed_zero_example : displayed (some no_health) 4 ≡ displayed none 4
displayed_zero_example = displayed_zero no_health 4 refl

clock_text-iso_example :
    clock_text (codes "2026-03-09T10:00:00.123Z") ≡ codes "2026-03-09 10:00:00 UTC"
unfolding without
clock_text-iso_example =
    clock_text-iso (codes "2026-03-09") (codes "10:00:00") (codes "123Z") refl refl refl
