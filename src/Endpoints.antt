-- ===== src/Endpoints.antt =====
-- web-dashboard/src/lib/runtime-endpoints.ts: where the dashboard finds its server. The build's
-- environment variables and the browser's location are arguments.
pub mod Precedence
use mathlib.Core.Option
use aether_lens.Prelude.{
  ℕ, Bool, true, false, ◌&&◌, ◌||◌, leb, Option, none, some, List, [], ◌∷◌, ◌++◌, reverse, Text,
  codes, text_eq, ◌==◌, if◌then◌else◌,
}
use aether_lens.Number.{number_text}

pub record Location : Type 0 where
  pub protocol : Text
  pub hostname : Text

pub record Environment : Type 0 where
  pub api_url : Option Text  -- `NEXT_PUBLIC_API_URL`
  pub hub_url : Option Text  -- `NEXT_PUBLIC_HUB_URL`
  pub location : Option Location  -- none where `window` is undefined

-- The white space and line ends that `trim` removes.
unfoldable pub is_space : ℕ → Bool
is_space c =
    leb 9 c && leb c 13
    || (leb 0x2000 c && leb c 0x200a)
    || (c == 0x20 || c == 0xa0 || c == 0x1680 || c == 0x2028 || c == 0x2029)
    || (c == 0x202f || c == 0x205f || c == 0x3000 || c == 0xfeff)

trim_start : Text → Text
unfolding is_space
trim_start [] = []
trim_start (c ∷ s) = if is_space c then trim_start s else c ∷ s

unfoldable pub trim : Text → Text
unfolding trim_start
trim s = reverse (trim_start (reverse (trim_start s)))

-- A configured value, after `?.trim()`: undefined and the empty text are both falsy.
abbrev given : Option Text → Option Text
given none = none
given (some []) = none
given (some (c ∷ s)) = some (c ∷ s)

unfoldable pub configured : Option Text → Option Text
unfolding trim
configured value = given (Option.map trim value)

abbrev or_else {ℓ} : {A : Type ℓ} → Option A → A → A
or_else none b = b
or_else (some a) b = a

unfoldable pub resolve_host_port_url : Option Location → ℕ → Text
unfolding number_text
resolve_host_port_url none port = codes "http://localhost:" ++ number_text port
resolve_host_port_url (some l) port =
    (if text_eq l.protocol (codes "https:") then codes "https:" else codes "http:")
    ++ (codes "//" ++ (l.hostname ++ (codes ":" ++ number_text port)))

unfoldable pub api_base_url : Environment → Text
unfolding configured resolve_host_port_url
api_base_url env = or_else (configured env.api_url) (resolve_host_port_url env.location 5000)

unfoldable pub hub_url : Environment → Text
unfolding configured api_base_url
hub_url env = or_else (configured env.hub_url) (api_base_url env ++ codes "/hubs/aether-lens")
