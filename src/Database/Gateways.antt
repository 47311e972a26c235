-- ===== src/Database/Gateways.antt =====
-- orchestrator/repositories/gateway_repo.py
use deep_orc.Prelude.{
  if◌then◌else◌, ◌==◌, nat_eq, any, first, select, Text, text_eq, ℕ, Bool, true, false, not, ◌&&◌,
  ◌||◌, Option, [], ◌∷◌, ◌++◌,
}
use deep_orc.Models.{GatewayStatus, integrity_error, Message, Gateway}
use deep_orc.Tables.{get, update, delete}
use deep_orc.Effects.{ok, err}
use deep_orc.Database.{
  Database, gateway_keyed, job_keyed, peer_keyed, group_keyed, worker_keyed, enrollment_keyed,
  registration_keyed, is_just, Query,
}

abbrev pub is_ready : GatewayStatus → Bool
is_ready GatewayStatus.ready = true
is_ready _ = false

abbrev pub is_deleting : GatewayStatus → Bool
is_deleting GatewayStatus.deleting = true
is_deleting _ = false

abbrev pub is_error : GatewayStatus → Bool
is_error GatewayStatus.error = true
is_error _ = false

abbrev pub is_provisioning : GatewayStatus → Bool
is_provisioning GatewayStatus.provisioning = true
is_provisioning _ = false

abbrev pub get_gateway : ℕ → Database → Option Gateway
get_gateway gateway_id db = get gateway_id db.gateways

unfoldable pub get_by_name : Text → Database → Option Gateway
get_by_name name db = first (λ g. g.name == name) db.gateways

unfoldable pub get_by_tailscale_hostname : Text → Database → Option Gateway
get_by_tailscale_hostname hostname db = first (λ g. g.tailscale_hostname == hostname) db.gateways

-- `name` is unique, and so is (`worker_id`, `udp_port`).
abbrev pub clashes : Gateway → Gateway → Bool
clashes a b = a.name == b.name || (a.worker_id == b.worker_id && a.udp_port == b.udp_port)

unfoldable pub create_gateway_row : Gateway → Query (Unit {0})
create_gateway_row row db =
    if any (clashes row) db.gateways
    then (err integrity_error, db)
    else (ok tt, record db { gateways = db.gateways ++ row ∷ [] })

abbrev pub set_status : GatewayStatus → Option Message → Gateway → Gateway
set_status status message g = record g { status = status; error_message = message }

unfoldable pub update_gateway : ℕ → (Gateway → Gateway) → Database → Database
update_gateway gateway_id f db = record db { gateways = update gateway_id f db.gateways }

-- `update_status`; without a message the column becomes NULL.
unfoldable pub update_gateway_status : ℕ → GatewayStatus → Option Message → Database → Database
unfolding update_gateway
update_gateway_status gateway_id status message =
    update_gateway gateway_id (set_status status message)

-- `session.delete(gateway)`: the relationships to peers and jobs cascade.
unfoldable pub delete_gateway_row : ℕ → Database → Database
delete_gateway_row gateway_id db = record db {
  gateways = delete gateway_id db.gateways;
  peers = select (λ q. not (q.gateway_id == gateway_id)) db.peers;
  jobs = select (λ j. not (is_just j.gateway_id gateway_id)) db.jobs;
}
