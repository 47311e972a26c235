-- ===== src/Groups.antt =====
-- orchestrator/services/peer_group_service.py: the groups of gateways that share a LAN. Addresses
-- and subnets are numbers, so the texts of a request are those that `ipaddress` can read.
pub mod Members
pub mod Batch
pub mod Removal
pub mod Creation
pub mod Renaming
use deep_orc.Prelude.{
  ltb, if◌then◌else◌, ◌==◌, nat_eq, any, Text, text_eq, is_empty, strip, ℕ, zero, suc, Bool, not,
  ◌&&◌, Option, none, some, List, [], ◌∷◌,
}
use deep_orc.Models.Ipv4.{Network}
use deep_orc.Models.{
  bad_name, bad_count, lan_exhausted, group_exists, group_not_found, group_not_empty, Gateway,
  PeerGroup, Worker,
}
use deep_orc.Tables.{keys}
use deep_orc.Effects.{Result, ok, pure, gets, lift_result, require, raise_if, ◌>>=◌, ◌>>◌}
use deep_orc.Database.{
  gateway_keyed, job_keyed, peer_keyed, group_keyed, worker_keyed, enrollment_keyed,
  registration_keyed, Query,
}
use deep_orc.Lan.{
  infer_lan_subnet, default_lan_gateway, validate_lan_start_ip, macvlan_slot_from_ip, in_group,
  allocate_lan_ip, remaining_lan_capacity,
}
use deep_orc.Database.Gateways.{is_deleting}
use deep_orc.Database.Groups.{get_group, create_group_row, delete_group_row, rename_group_row}
use deep_orc.Platform.{Platform, Settings}
use deep_orc.Session.{Action, query, commit, write}
use deep_orc.Workers.{get_worker}
use deep_orc.Gateways.{CreateGatewayRequest, CreateGatewayResult}
use deep_orc.Gateways.Create.{create_gateway}

pub record CreatePeerGroupRequest : Type 0 where
  pub name : Text
  pub worker_id : ℕ
  pub lan_start_ip : ℕ
  pub lan_subnet : Option Network
  pub lan_gateway : Option ℕ
  pub parent_iface : Option Text

pub record CreateGatewaysInGroupResult : Type 0 where
  pub group : PeerGroup
  pub gateways : List CreateGatewayResult

-- `infer_lan_subnet` makes a /24.
abbrev pub default_prefix : ℕ
default_prefix = 24

abbrev pub chosen_subnet : CreatePeerGroupRequest → Network
chosen_subnet r = elim r.lan_subnet [
  | none ↦ infer_lan_subnet r.lan_start_ip default_prefix
  | some subnet ↦ subnet
]

abbrev pub chosen_gateway : Option ℕ → Network → Result ℕ
chosen_gateway none subnet = default_lan_gateway subnet
chosen_gateway (some ip) subnet = ok ip

-- `request.parent_iface.strip() if request.parent_iface else None`
abbrev pub chosen_iface : Option Text → Option Text
chosen_iface none = none
chosen_iface (some iface) = if is_empty iface then none else some (strip iface)

abbrev pub new_group : CreatePeerGroupRequest → Worker → ℕ → ℕ → PeerGroup
new_group r worker lan_gateway id = record {
  id = id;
  name = strip r.name;
  worker_id = worker.id;
  lan_subnet = chosen_subnet r;
  lan_start_ip = r.lan_start_ip;
  lan_gateway = some lan_gateway;
  parent_iface = chosen_iface r.parent_iface;
}

abbrev pub max_batch : ℕ
max_batch = 64

abbrev pub has_name : Text → PeerGroup → Bool
has_name name g = g.name == name

-- The gateways of the group that are not being deleted.
abbrev pub is_active_in : ℕ → Gateway → Bool
is_active_in group_id g = in_group group_id g && not (is_deleting g.status)

abbrev pub in_group_request : PeerGroup → ℕ → CreateGatewayRequest
in_group_request group lan_ip = record {
  gateway_name = none;
  udp_port = none;
  worker_id = some group.worker_id;
  peer_group_id = some group.id;
  lan_ip = some lan_ip;
  macvlan_slot = some (macvlan_slot_from_ip lan_ip);
}

abbrev pub renamed : Text → PeerGroup → PeerGroup
renamed name g = record g { name = name }

module _ {W : Type 0} (p : Platform W) (config : Settings) where
  -- The row is flushed under a new key.
  unfoldable pub store_group : (ℕ → PeerGroup) → Query PeerGroup
  unfolding create_group_row ◌>>=◌
  store_group row = do
    id ← gets (λ db. p.new_key (keys db.peer_groups))
    create_group_row (row id)
    pure (row id)

  unfoldable pub create_group : CreatePeerGroupRequest → Action W PeerGroup
  create_group request = do
    query (raise_if (is_empty (strip request.name)) bad_name)
    query (λ db. raise_if (any (has_name (strip request.name)) db.peer_groups) group_exists db)
    worker ← query (λ db. (get_worker request.worker_id db, db))
    query (lift_result (validate_lan_start_ip (chosen_subnet request) request.lan_start_ip))
    lan_gateway ← query (lift_result (chosen_gateway request.lan_gateway (chosen_subnet request)))
    group ← query (store_group (new_group request worker lan_gateway))
    commit
    pure group

  -- One round of the loop.
  unfoldable pub create_next : PeerGroup → Action W CreateGatewayResult
  create_next group = do
    lan_ip ← query (allocate_lan_ip group)
    create_gateway p config (in_group_request group lan_ip)

  unfoldable pub create_all : PeerGroup → ℕ → Action W (List CreateGatewayResult)
  create_all group zero = pure []
  create_all group (suc n) = do
    result ← create_next group
    results ← create_all group n
    pure (result ∷ results)

  unfoldable pub create_gateways : ℕ → ℕ → Action W CreateGatewaysInGroupResult
  create_gateways group_id count = do
    query (raise_if (ltb count 1) bad_count)
    query (raise_if (ltb max_batch count) bad_count)
    group ← query (λ db. require group_not_found (get_group group_id db) db)
    available ← query (remaining_lan_capacity group)
    query (raise_if (ltb available count) lan_exhausted)
    results ← create_all group count
    commit
    pure (record { group = group; gateways = results })

module _ {W : Type 0} where
  unfoldable pub delete_group : ℕ → Action W (Unit {0})
  delete_group group_id = do
    group ← query (λ db. require group_not_found (get_group group_id db) db)
    query (λ db. raise_if (any (is_active_in group.id) db.gateways) group_not_empty db)
    write (delete_group_row group.id)
    commit

  unfoldable pub change_name : Text → PeerGroup → Action W PeerGroup
  change_name name group = do
    query (λ db. raise_if (any (has_name name) db.peer_groups) group_exists db)
    query (rename_group_row group.id name)
    commit
    pure (renamed name group)

  unfoldable pub rename_group : ℕ → Text → Action W PeerGroup
  rename_group group_id name = do
    query (raise_if (is_empty (strip name)) bad_name)
    group ← query (λ db. require group_not_found (get_group group_id db) db)
    if strip name == group.name then pure group else change_name (strip name) group
