-- ===== src/Server/Hub/Members.antt =====
-- Which clients of api-server/Hubs/NetworkMonitorHub.cs a message is sent to.
use aether_lens.Prelude.{◌≡◌, true, List, [], ◌∷◌, Text, codes, All}
use aether_lens.Wire.{Message, packets, process_stats, health, anomaly}
use aether_lens.Server.Hub.{GroupManager, on_connected_async, connect_all, group_of}

module _ (manager : GroupManager) where
  -- The client is in the group of every message.
  abbrev pub IsReached : manager.Groups → Text → Type 0
  IsReached groups id = (m : Message) → manager.is_member id (group_of m) groups ≡ true

  on_connected_async-network :
      (id : Text) (groups : manager.Groups)
      → manager.is_member id (codes "network") (on_connected_async manager id groups) ≡ true
  unfolding on_connected_async
  on_connected_async-network id groups =
      manager.kept id _ id _ _
        (manager.kept id _ id _ _ (manager.added id (codes "network") groups))

  on_connected_async-IsReached :
      (id : Text) (groups : manager.Groups) → IsReached (on_connected_async manager id groups) id
  unfolding group_of on_connected_async
  on_connected_async-IsReached id groups (packets batch) = on_connected_async-network id groups
  on_connected_async-IsReached id groups (process_stats u) = on_connected_async-network id groups
  on_connected_async-IsReached id groups (anomaly a) = on_connected_async-network id groups
  on_connected_async-IsReached id groups (health h) = manager.added id (codes "ops-seha") _

  on_connected_async-kept :
      (id other : Text) (groups : manager.Groups)
      → IsReached groups id
      → IsReached (on_connected_async manager other groups) id
  unfolding on_connected_async
  on_connected_async-kept id other groups h m =
      manager.kept id _ other _ _
        (manager.kept id _ other _ _ (manager.kept id _ other _ groups (h m)))

  connect_all-kept :
      (id : Text) (ids : List Text) (groups : manager.Groups)
      → IsReached groups id
      → IsReached (connect_all manager ids groups) id
  unfolding connect_all
  connect_all-kept id [] groups h = h
  connect_all-kept id (other ∷ ids) groups h =
      connect_all-kept id ids (on_connected_async manager other groups)
        (on_connected_async-kept id other groups h)

-- However the manager keeps its groups, every client that connected is in the group of every message
-- that a service sends.
pub connect_all-IsReached :
    (manager : GroupManager) (ids : List Text) (groups : manager.Groups)
    → All (IsReached manager (connect_all manager ids groups)) ids
unfolding connect_all
connect_all-IsReached manager [] groups = tt
connect_all-IsReached manager (id ∷ ids) groups =
    let joined = on_connected_async manager id groups in
    (
      connect_all-kept manager id ids joined (on_connected_async-IsReached manager id groups),
      connect_all-IsReached manager ids joined,
    )
