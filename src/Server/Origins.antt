-- ===== src/Server/Origins.antt =====
-- `IsLocalDashboardOrigin` and the policy for origins of api-server/Program.cs. `Uri.TryCreate` is the
-- framework's: what it makes of an origin is an argument. Letters are ASCII.
pub mod Dots
pub mod Quads
use aether_lens.Prelude.{
  ℕ, ◌+◌, Bool, true, false, ◌&&◌, ◌||◌, Option, none, some, List, [], ◌∷◌, map, Text, codes,
  text_eq, ltb, ◌==◌, if◌then◌else◌,
}

pub record Uri : Type 0 where
  pub host : Text
  pub port : ℕ

-- Comparison by `OrdinalIgnoreCase` compares the letters in one case.
abbrev fold_case : ℕ → ℕ
fold_case c = if ltb c b'A' || ltb b'Z' c then c else c + 32

abbrev starts : Text → Text → Bool
starts [] s = true
starts (p ∷ ps) [] = false
starts (p ∷ ps) (c ∷ s) = p == c && starts ps s

-- `s.StartsWith(prefix, StringComparison.OrdinalIgnoreCase)`
abbrev starts_with : Text → Text → Bool
starts_with s prefix = starts (map fold_case prefix) (map fold_case s)

-- `string.Equals(s, t, StringComparison.OrdinalIgnoreCase)`
abbrev equals : Text → Text → Bool
equals s t = text_eq (map fold_case s) (map fold_case t)

unfoldable pub is_local_host : Text → Bool
unfolding text_eq
is_local_host host =
    equals host (codes "localhost")
    || text_eq host (codes "127.0.0.1")
    || starts_with host (codes "192.168.")
    || starts_with host (codes "10.")
    || starts_with host (codes "172.16.")
    || starts_with host (codes "172.17.")
    || starts_with host (codes "172.18.")
    || starts_with host (codes "172.19.")
    || starts_with host (codes "172.2")
    || starts_with host (codes "172.30.")
    || starts_with host (codes "172.31.")

unfoldable pub is_local_dashboard_origin : Option Uri → Bool
unfolding is_local_host
is_local_dashboard_origin none = false
is_local_dashboard_origin (some uri) =
    is_local_host uri.host && (uri.port == 3000 || uri.port == 3001)

-- `corsOrigins.Contains(origin, StringComparer.OrdinalIgnoreCase)`
contains_origin : List Text → Text → Bool
unfolding text_eq
contains_origin [] origin = false
contains_origin (o ∷ origins) origin = equals o origin || contains_origin origins origin

-- The test given to `SetIsOriginAllowed`.
unfoldable pub is_origin_allowed : List Text → (Text → Option Uri) → Text → Bool
unfolding contains_origin is_local_dashboard_origin
is_origin_allowed cors_origins try_create origin =
    contains_origin cors_origins origin || is_local_dashboard_origin (try_create origin)
