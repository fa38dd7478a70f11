-- ===== src/Server/Start.antt =====
-- api-server/Program.cs: the settings with their defaults, the services that are started, and the order in
-- which a request goes through the application. ASP.NET runs them.
pub mod Defaults
use aether_lens.Prelude.{
  ℕ, Bool, true, false, ◌&&◌, ◌||◌, leb, ◌==◌, Option, none, some, List, [], ◌∷◌, ◌++◌, Text, codes,
  if◌then◌else◌,
}

-- `char.IsWhiteSpace`
unfoldable pub is_white_space : ℕ → Bool
is_white_space c =
    leb 9 c && leb c 13
    || (leb 0x2000 c && leb c 0x200a)
    || (c == 0x20 || c == 0x85 || c == 0xa0 || c == 0x1680 || c == 0x2028 || c == 0x2029)
    || (c == 0x202f || c == 0x205f || c == 0x3000)

unfoldable pub is_all_white_space : Text → Bool
unfolding is_white_space
is_all_white_space [] = true
is_all_white_space (c ∷ s) = is_white_space c && is_all_white_space s

-- The setting `Server:Urls` or else `ASPNETCORE_URLS`, where only a missing one is passed over.
abbrev pub either : Option Text → Option Text → Option Text
either none other = other
either (some value) other = some value

-- `string.IsNullOrWhiteSpace(serverUrls) ? … : serverUrls`
abbrev pub urls_of : Option Text → Text
urls_of none = codes "http://0.0.0.0:5000;http://[::]:5000"
urls_of (some urls) =
    if is_all_white_space urls then codes "http://0.0.0.0:5000;http://[::]:5000" else urls

unfoldable pub server_urls : Option Text → Option Text → Text
server_urls configured environment = urls_of (either configured environment)

abbrev pub value_or {ℓ} : {A : Type ℓ} → Option A → A → A
value_or none default = default
value_or (some value) default = value

unfoldable pub connection_string : Option Text → Text
connection_string configured = value_or configured (codes "Data Source=aether_lens.db")

unfoldable pub cors_origins : Option (List Text) → List Text
cors_origins configured =
    value_or configured (codes "http://localhost:3000" ∷ codes "http://localhost:3001" ∷ [])

-- The services that are added, in their order.
pub data Service : Type 0 where
  grpc_stream : Service
  suspicious_grpc_stream : Service
  packet_consumer : Service
  suspicious_consumer : Service
  packet_persistence : Service
  system_monitor : Service

abbrev pub services : List Service
services =
    grpc_stream ∷ suspicious_grpc_stream ∷ packet_consumer ∷ suspicious_consumer
    ∷ packet_persistence ∷ system_monitor ∷ []

-- What a request goes through: the policy for origins, in development the documentation, the limiter, and
-- the hub at its path.
pub data Stage : Type 0 where
  cors : Stage
  swagger : Stage
  rate_limit : Stage
  hub : Text → Stage

abbrev pub hub_path : Text
hub_path = codes "/hubs/aether-lens"

unfoldable pub stages : Bool → List Stage
stages is_development =
    cors ∷ ((if is_development then swagger ∷ [] else []) ++ rate_limit ∷ hub hub_path ∷ [])
