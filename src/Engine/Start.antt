-- ===== src/Engine/Start.antt =====
-- core-engine/src/main.rs: the address of the gRPC server and the tasks that are started, from the variables
-- of the environment. That the address can be parsed is left to tokio's types.
use aether_lens.Prelude.{Option, none, some, List, [], ◌∷◌, ◌++◌, Text, codes, if◌then◌else◌}
use aether_lens.Engine.Demo.{demo_mode}

pub record Variables : Type 0 where
  pub core_grpc_port : Option Text  -- `CORE_GRPC_PORT`
  pub core_grpc_host : Option Text  -- `CORE_GRPC_HOST`
  pub demo : Option Text  -- `DEMO_MODE`

-- `unwrap_or_else`
abbrev pub unwrap_or : Option Text → Text → Text
unwrap_or none default = default
unwrap_or (some value) default = value

unfoldable pub addr_str : Variables → Text
addr_str v =
    unwrap_or v.core_grpc_host (codes "0.0.0.0")
    ++ (codes ":" ++ unwrap_or v.core_grpc_port (codes "50051"))

pub data Task : Type 0 where
  grpc : Text → Task
  demo_generator : Task
  packet_sniffer : Task
  packet_processor : Task
  suspicious_processor : Task

unfoldable pub tasks : Variables → List Task
unfolding addr_str demo_mode
tasks v =
    grpc (addr_str v)
    ∷ (if demo_mode v.demo then demo_generator else packet_sniffer)
    ∷ packet_processor
    ∷ suspicious_processor
    ∷ []
