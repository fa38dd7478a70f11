-- ===== src/Server/Hub.antt =====
-- api-server/Hubs/NetworkMonitorHub.cs: the groups that a client joins when it connects, and the group that
-- each service sends its message to. SignalR's management of groups is an interface.
pub mod Members
use aether_lens.Prelude.{◌≡◌, Bool, true, List, [], ◌∷◌, Text, codes}
use aether_lens.Wire.{Message, packets, process_stats, health, anomaly}

-- The groups of SignalR, and what is documented of them: `AddToGroupAsync` makes the connection a
-- member of the group and takes no connection out of a group.
pub record GroupManager : Type 1 where
  pub Groups : Type 0
  pub add_to_group : Text → Text → Groups → Groups
  pub is_member : Text → Text → Groups → Bool
  pub added :
      (id group : Text) (groups : Groups) → is_member id group (add_to_group id group groups) ≡ true
  pub kept :
      (id group other name : Text) (groups : Groups)
      → is_member id group groups ≡ true
      → is_member id group (add_to_group other name groups) ≡ true

unfoldable pub on_connected_async :
    (manager : GroupManager) → Text → manager.Groups → manager.Groups
on_connected_async manager id groups =
    let in_network = manager.add_to_group id (codes "network") groups in
    let in_pro = manager.add_to_group id (codes "network:pro") in_network in
    manager.add_to_group id (codes "ops-seha") in_pro

-- Clients that connect one after the other.
unfoldable pub connect_all : (manager : GroupManager) → List Text → manager.Groups → manager.Groups
unfolding on_connected_async
connect_all manager [] groups = groups
connect_all manager (id ∷ ids) groups =
    connect_all manager ids (on_connected_async manager id groups)

-- The group of `Clients.Group` in the service that sends the message.
unfoldable pub group_of : Message → Text
group_of (packets batch) = codes "network"
group_of (process_stats u) = codes "network"
group_of (anomaly a) = codes "network"
group_of (health h) = codes "ops-seha"
