-- ===== src/Endpoints/Precedence.antt =====
-- The settings of web-dashboard/src/lib/runtime-endpoints.ts, and which of them is used.
use aether_lens.Prelude.{
  ◌≡◌, refl, true, Option, none, some, [], ◌∷◌, ◌++◌, All, Text, codes, text_eq, if◌then◌else◌,
}
use aether_lens.Endpoints.{Environment, Location, is_space, trim_start, configured, hub_url}

abbrev pub IsBlank : Text → Type 0
IsBlank s = All (λ c. is_space c ≡ true) s

trim_start-blank : (s : Text) → IsBlank s → trim_start s ≡ []
unfolding trim_start
trim_start-blank [] h = refl
trim_start-blank (c ∷ s) (p, h) = rw p (trim_start-blank s h)

-- A setting that is missing, or of white space alone.
abbrev pub IsUnset : Option Text → Type 0
IsUnset none = Unit
IsUnset (some s) = IsBlank s

configured-unset : (value : Option Text) → IsUnset value → configured value ≡ none
unfolding configured
configured-unset none h = refl
configured-unset (some s) h = rw (trim_start-blank s h)

-- With both settings unset, by absence or by white space alone, the hub is at port 5000 of the host
-- that served the page, over https exactly if the page was served so.
pub hub_url-unset :
    (env : Environment) (l : Location)
    → IsUnset env.api_url
    → IsUnset env.hub_url
    → env.location ≡ some l
    → hub_url env
      ≡ ((if text_eq l.protocol (codes "https:") then codes "https:" else codes "http:")
          ++ (codes "//" ++ (l.hostname ++ codes ":5000")))
        ++ codes "/hubs/aether-lens"
unfolding hub_url
hub_url-unset env l h k e =
    rw (configured-unset env.hub_url k, configured-unset env.api_url h, e) refl
