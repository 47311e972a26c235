-- ===== src/Gateways.antt =====
-- orchestrator/services/gateway_service.py: the life of a gateway. Each method is an action over
-- the session and the outside world.
pub mod Create
pub mod Delete
pub mod Provision
pub mod Lifecycle
use deep_orc.Prelude.{
  if◌then◌else◌, ◌==◌, nat_eq, contains, Text, codes, text_eq, is_empty, ℕ, Bool, true, false, ◌||◌,
  Option, none, some, List, [], ◌∷◌, ◌++◌, map,
}
use deep_orc.Naming.{gateway_prefix, sequential_width, next_sequential_name}
use deep_orc.Models.{GatewayStatus, Gateway, Worker}
use deep_orc.Effects.{pure}
use deep_orc.Database.{
  Database, gateway_keyed, job_keyed, peer_keyed, group_keyed, worker_keyed, enrollment_keyed,
  registration_keyed, Query,
}
use deep_orc.Pools.{allocate_udp_port}

abbrev pub exit_node_pending : Text
exit_node_pending = codes "pending"

pub record CreateGatewayRequest : Type 0 where
  pub gateway_name : Option Text
  pub udp_port : Option ℕ
  pub worker_id : Option ℕ
  pub peer_group_id : Option ℕ
  pub lan_ip : Option ℕ
  pub macvlan_slot : Option ℕ

pub record CreateGatewayResult : Type 0 where
  pub gateway_id : ℕ
  pub job_id : ℕ
  pub agent_token : Text

-- `_gateway_headscale_hostnames`: the names that are not empty, each once.
abbrev pub add_name : Text → List Text → List Text
add_name value names = if is_empty value || contains names value then names else names ++ value ∷ []

unfoldable pub gateway_headscale_hostnames : Gateway → List Text
gateway_headscale_hostnames g =
    add_name g.incus_instance (add_name g.name (add_name g.tailscale_hostname []))

-- `_next_gateway_name`
unfoldable pub next_gateway_name : Database → Option Text
next_gateway_name db =
    next_sequential_name gateway_prefix (map (λ g. g.name) db.gateways) sequential_width

-- `request.gateway_name or self._next_gateway_name()`
abbrev pub chosen_name : Option Text → Database → Option Text
chosen_name none db = next_gateway_name db
chosen_name (some name) db = if is_empty name then next_gateway_name db else some name

-- `request.udp_port or allocate_udp_port(…)`
abbrev pub chosen_port : Option ℕ → Worker → Query ℕ
chosen_port none worker = allocate_udp_port worker none
chosen_port (some port) worker = if port == 0 then allocate_udp_port worker none else pure port

unfoldable pub needs_provisioning : GatewayStatus → Bool
needs_provisioning GatewayStatus.pending = true
needs_provisioning GatewayStatus.error = true
needs_provisioning GatewayStatus.provisioning = true
needs_provisioning _ = false

-- The address that identifies the gateway's node, once it is known.
abbrev pub known_exit_ip : Gateway → Option Text
known_exit_ip g =
    if is_empty g.exit_node_id || g.exit_node_id == exit_node_pending
    then none
    else some g.exit_node_id
