-- ===== src/Tests/Groups.antt =====
-- The peer groups.
use deep_orc.Prelude.{
  nat_eq, length, any, find_from, Among, is_empty, strip, codes, text_eq, decimal, zero_pad, ◌≤◌,
  ◌≡◌, refl, ◌⊎◌, true, false, none, [], ◌∷◌,
}
use deep_orc.Naming.{format_sequential_name, next_sequential_name}
use deep_orc.Models.{
  GatewayStatus, Reason, bad_name, group_exists, group_not_empty, value_error, PeerGroup, is_local,
}
use deep_orc.Effects.{ok, err, ◌>>=◌}
use deep_orc.Database.{
  gateway_keyed, job_keyed, peer_keyed, group_keyed, worker_keyed, enrollment_keyed,
  registration_keyed,
}
use deep_orc.Pools.{allocate_vm_ip, allocate_udp_port}
use deep_orc.Lan.{allocate_lan_ip, remaining_lan_capacity}
use deep_orc.Database.Groups.{get_group}
use deep_orc.Session.{State, query, read_world, from_headscale, commit}
use deep_orc.Workers.{effective_status, get_worker, resolve_worker_for_gateway}
use deep_orc.Gateways.{next_gateway_name}
use deep_orc.Gateways.Create.{store_gateway, create_gateway}
use deep_orc.Groups.{
  CreatePeerGroupRequest, CreateGatewaysInGroupResult, is_active_in, create_group, create_next,
  create_all, create_gateways, delete_group, rename_group,
}
use deep_orc.Groups.Members.{IsBatch}
use deep_orc.Groups.Batch.{create_gateways-IsBatch}
use deep_orc.Groups.Removal.{IsRemoved, delete_group-cases}
use deep_orc.Groups.Creation.{IsNewGroup, IsRefused, create_group-cases}
use deep_orc.Groups.Renaming.{IsRenamed, rename_group-cases}
use deep_orc.Tests.Sample.{World, platform, settings, gateway_row, database, session}

abbrev lan : PeerGroup
lan = record {
  id = 5;
  name = codes "l";
  worker_id = 2;
  lan_subnet = record { network_address = 512; num_addresses = 256 };
  lan_start_ip = 512;
  lan_gateway = none;
  parent_iface = none;
}

abbrev with_group : GatewayStatus → State World
with_group status =
    session (record (database (gateway_row status ∷ []) []) { peer_groups = lan ∷ [] })

abbrev created_one : CreateGatewaysInGroupResult
created_one = record {
  group = lan;
  gateways = record { gateway_id = 4; job_id = 1; agent_token = codes "t" } ∷ [];
}

create_gateways-IsBatch_example :
    (1 ≤ 1)
    × (1 ≤ 64)
    × (length created_one.gateways ≡ 1)
    × IsBatch lan 1
        (gateway_row GatewayStatus.ready ∷ [])
        []
        (create_gateways platform settings 5 1 (with_group GatewayStatus.ready)).1.db
    × ((create_gateways platform settings 5 1 (with_group GatewayStatus.ready)).1.saved
        ≡ (create_gateways platform settings 5 1 (with_group GatewayStatus.ready)).1.db)
unfolding create_gateways get_group ◌>>=◌ query remaining_lan_capacity create_all create_next
    allocate_lan_ip find_from create_gateway next_gateway_name next_sequential_name
    format_sequential_name from_headscale read_world resolve_worker_for_gateway get_worker is_local
    store_gateway allocate_udp_port allocate_vm_ip decimal zero_pad commit effective_status
create_gateways-IsBatch_example =
    create_gateways-IsBatch platform settings 5 1 lan (with_group GatewayStatus.ready) created_one
      refl (refl, tt) refl

delete_group-cases_example :
    ((any (is_active_in 5) (gateway_row GatewayStatus.ready ∷ []) ≡ true)
      × (delete_group 5 (with_group GatewayStatus.ready)
          ≡ (err (value_error group_not_empty), with_group GatewayStatus.ready)))
    ⊎ ((any (is_active_in 5) (gateway_row GatewayStatus.ready ∷ []) ≡ false)
        × ((delete_group 5 (with_group GatewayStatus.ready)).0 ≡ ok tt)
        × IsRemoved 5
            (with_group GatewayStatus.ready)
            (delete_group 5 (with_group GatewayStatus.ready)).1)
unfolding get_group
delete_group-cases_example = delete_group-cases 5 lan (with_group GatewayStatus.ready) refl

abbrev group_request : CreatePeerGroupRequest
group_request = record {
  name = codes " m ";
  worker_id = 2;
  lan_start_ip = 1030;
  lan_subnet = none;
  lan_gateway = none;
  parent_iface = none;
}

create_group-cases_example :
    ((g : PeerGroup) × ((create_group platform settings group_request
          (with_group GatewayStatus.ready)).0
        ≡ ok g)
      × IsNewGroup group_request
          (with_group GatewayStatus.ready)
          (create_group platform settings group_request (with_group GatewayStatus.ready)).1
          g)
    ⊎ ((why : Reason) × (create_group platform settings group_request
            (with_group GatewayStatus.ready)
          ≡ (err (value_error why), with_group GatewayStatus.ready))
        × IsRefused group_request (with_group GatewayStatus.ready).db why)
create_group-cases_example =
    create_group-cases platform settings group_request (with_group GatewayStatus.ready)

rename_group-cases_example :
    ((is_empty (strip (codes " m ")) ≡ true)
      × (rename_group 5 (codes " m ") (with_group GatewayStatus.ready)
          ≡ (err (value_error bad_name), with_group GatewayStatus.ready)))
    ⊎ ((strip (codes " m ") ≡ lan.name)
        × (rename_group 5 (codes " m ") (with_group GatewayStatus.ready)
            ≡ (ok lan, with_group GatewayStatus.ready)))
    ⊎ ((h : PeerGroup) × Among h (lan ∷ [])
        × (h.name ≡ strip (codes " m "))
        × (rename_group 5 (codes " m ") (with_group GatewayStatus.ready)
            ≡ (err (value_error group_exists), with_group GatewayStatus.ready)))
    ⊎ (((rename_group 5 (codes " m ") (with_group GatewayStatus.ready)).0
          ≡ ok (record lan { name = strip (codes " m ") }))
        × IsRenamed 5 lan
            (strip (codes " m "))
            (with_group GatewayStatus.ready)
            (rename_group 5 (codes " m ") (with_group GatewayStatus.ready)).1)
unfolding get_group
rename_group-cases_example =
    rename_group-cases 5 (codes " m ") lan (with_group GatewayStatus.ready) refl
