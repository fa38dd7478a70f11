-- ===== src/Clock.antt =====
-- web-dashboard/src/components/UtcClock.tsx: the text of the clock. What `toISOString` returns is the
-- argument.
pub mod Layout
use aether_lens.Prelude.{ℕ, List, [], ◌∷◌, ◌++◌, Text, codes, ◌==◌, if◌then◌else◌}

-- `s.replace("T", " ")`: the first one only.
replace_first : ℕ → ℕ → Text → Text
replace_first old new [] = []
replace_first old new (c ∷ s) = if c == old then new ∷ s else c ∷ replace_first old new s

-- `s.split(".")[0]`
before : ℕ → Text → Text
before stop [] = []
before stop (c ∷ s) = if c == stop then [] else c ∷ before stop s

unfoldable pub clock_text : Text → Text
unfolding replace_first before
clock_text iso = before b'.' (replace_first b'T' b' ' iso) ++ codes " UTC"
