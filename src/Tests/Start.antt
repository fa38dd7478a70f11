-- ===== src/Tests/Start.antt =====
-- The settings of core-engine/src/main.rs and api-server/Program.cs, missing and given.
use aether_lens.Prelude.{◌≡◌, refl, false, none, some, [], ◌∷◌, codes, text_eq}
use aether_lens.Endpoints.{trim}
use aether_lens.Engine.Demo.{demo_mode}
use aether_lens.Engine.Start.{
  Variables, grpc, demo_generator, packet_sniffer, packet_processor, suspicious_processor, tasks,
  addr_str,
}
use aether_lens.Server.Start.{
  is_white_space, is_all_white_space, server_urls, stages, cors, rate_limit, hub, hub_path,
}

abbrev unset : Variables
unset = record { core_grpc_port = none; core_grpc_host = none; demo = none }

default_tasks :
    tasks unset
    ≡ grpc (codes "0.0.0.0:50051") ∷ packet_sniffer ∷ packet_processor ∷ suspicious_processor ∷ []
unfolding tasks addr_str demo_mode
default_tasks = refl

demo_tasks :
    tasks (record unset { core_grpc_port = some (codes "6000"); demo = some (codes " 1") })
    ≡ grpc (codes "0.0.0.0:6000") ∷ demo_generator ∷ packet_processor ∷ suspicious_processor ∷ []
unfolding tasks addr_str demo_mode trim text_eq
demo_tasks = refl

-- A blank setting hides the other one, and the default is taken.
blank_urls :
    server_urls (some (codes " ")) (some (codes "http://localhost:80"))
    ≡ codes "http://0.0.0.0:5000;http://[::]:5000"
unfolding server_urls is_all_white_space is_white_space
blank_urls = refl

stages_run : stages false ≡ cors ∷ rate_limit ∷ hub hub_path ∷ []
unfolding stages
stages_run = refl
