-- ===== src/Server/Health/Uptime.antt =====
-- The uptime of api-server/Services/SystemMonitorService.cs, read back.
use aether_lens.Prelude.{
  ℕ, ◌+◌, ◌-◌, ◌*◌, ◌/◌, ◌%◌, ◌≡◌, refl, ap, sym, append-nil, Bool, ◌∙◌, [], ◌∷◌, ◌++◌, Text, ltb,
  ◌==◌, Bool-cases, inl, inr, if◌then◌else◌, arith, false,
}
use aether_lens.Number.{Double, number_text}
use aether_lens.Number.Decimal.{IsDigits, number_text-IsDigits, read_from, read_from-number_text}
use aether_lens.Server.Health.{two_digits, ticks_per_second, uptime_text, health_message, Rates}

-- Numbers between colons, read in base 60: those before the last, and the last so far.
abbrev pub read_base60 : ℕ → ℕ → Text → ℕ
read_base60 before part [] = before * 60 + part
read_base60 before part (c ∷ s) =
    let next = read_base60 (before * 60 + part) 0 s in
    let more = read_base60 before (part * 10 + (c - b'0')) s in if c == b':' then next else more

read_base60-digits :
    (before part : ℕ) (s rest : Text)
    → IsDigits s
    → read_base60 before part (s ++ rest) ≡ read_base60 before (read_from part s) rest
read_base60-digits before part [] rest h = refl
read_base60-digits before part (c ∷ s) rest ((low, high), h) =
    let digit : (c == b':') ≡ false = ground arith in
    rw digit (read_base60-digits before (part * 10 + (c - b'0')) s rest h)

read_base60-two_digits :
    (before n : ℕ) (rest : Text)
    → read_base60 before 0 (two_digits n ++ rest) ≡ read_base60 before n rest
unfolding two_digits
read_base60-two_digits before n rest =
    let plain : read_base60 before 0 (number_text n ++ rest) ≡ read_base60 before n rest =
      read_base60-digits before 0 (number_text n) rest (number_text-IsDigits n)
      ∙ ap (λ (k : ℕ). read_base60 before k rest) (read_from-number_text n) in
    elim (Bool-cases (ltb n 10)) [ inl small ↦ rw small plain | inr large ↦ rw large plain ]

read_base60-uptime_text :
    (ticks : ℕ) → read_base60 0 0 (uptime_text ticks) ≡ ticks / ticks_per_second
unfolding uptime_text
read_base60-uptime_text ticks =
    let s = ticks / ticks_per_second in
    read_base60-two_digits 0 (s / 3600) _
    ∙ (read_base60-two_digits (0 * 60 + s / 3600) (s / 60 % 60) _
        ∙ (last ((0 * 60 + s / 3600) * 60 + s / 60 % 60) (s % 60) ∙ omega arith))
  where
    last : (before n : ℕ) → read_base60 before 0 (two_digits n) ≡ before * 60 + n
    last before n =
        ap (read_base60 before 0) (sym (append-nil (two_digits n)))
        ∙ read_base60-two_digits before n []

-- The uptime of the health message, read as hours, minutes and seconds, is the whole seconds since
-- the start.
pub uptime-health_message :
    (round : Double → ℕ → Double) (rates : Rates) (grpc_connected : Bool) (start_time now : ℕ)
    → read_base60 0 0 (health_message round rates grpc_connected start_time now).uptime
      ≡ (now - start_time) / ticks_per_second
unfolding health_message
uptime-health_message round rates grpc_connected start_time now =
    read_base60-uptime_text (now - start_time)
