-- ===== src/Server/Start/Defaults.antt =====
-- The settings of api-server/Program.cs when they are missing or blank, and where the dashboard looks for
-- the server then.
use aether_lens.Prelude.{
  ◌≡◌, refl, false, Bool-cases, inl, inr, Option, none, some, ◌++◌, Text, codes, text_eq,
  if◌then◌else◌,
}
use aether_lens.Endpoints.{Location, Environment, hub_url}
use aether_lens.Endpoints.Precedence.{IsUnset, hub_url-unset}
use aether_lens.Server.Start.{
  is_white_space, is_all_white_space, either, urls_of, server_urls, hub_path,
}

urls_of-given : (value : Option Text) → is_all_white_space (urls_of value) ≡ false
unfolding is_all_white_space is_white_space
urls_of-given none = refl
urls_of-given (some urls) = elim (Bool-cases (is_all_white_space urls)) [
  | inl blank ↦ rw blank refl
  | inr given ↦ rw (given, given) refl
]

-- Whatever is configured, the addresses that the server is to listen to are not blank.
pub server_urls-given :
    (configured environment : Option Text)
    → is_all_white_space (server_urls configured environment) ≡ false
unfolding server_urls
server_urls-given configured environment = urls_of-given (either configured environment)

-- With its settings unset the dashboard goes to port 5000 of the host that served the page, at the path
-- of the server's hub.
pub hub_url-hub_path :
    (env : Environment) (l : Location)
    → IsUnset env.api_url
    → IsUnset env.hub_url
    → env.location ≡ some l
    → hub_url env
      ≡ ((if text_eq l.protocol (codes "https:") then codes "https:" else codes "http:")
          ++ (codes "//" ++ (l.hostname ++ codes ":5000")))
        ++ hub_path
hub_url-hub_path env l h k e = hub_url-unset env l h k e
