-- ===== src/Tests/Services.antt =====
-- The services' methods.
use deep_orc.Prelude.{
  ◌==◌, nat_eq, all, any, find_from, codes, text_eq, ℕ, ◌≡◌, refl, Bool, true, false, none, some,
  [], ◌∷◌,
}
use deep_orc.Models.{
  GatewayStatus, JobType, JobStatus, gateway_exists, Failure, value_error, headscale_error,
  is_local,
}
use deep_orc.Effects.{Result, ok, err, ◌>>=◌, try_except}
use deep_orc.Database.{
  gateway_keyed, job_keyed, peer_keyed, group_keyed, worker_keyed, enrollment_keyed,
  registration_keyed,
}
use deep_orc.Pools.{allocate_vm_ip, allocate_udp_port}
use deep_orc.Wg.{allocate_peer_ip}
use deep_orc.Database.Gateways.{update_gateway_status}
use deep_orc.Database.Jobs.{is_pending_of, get_latest_delete_job}
use deep_orc.Session.{
  State, query, outside, ask, read_world, from_headscale, commit, write, write_at,
}
use deep_orc.Agent.RuleLog.{words_eq}
use deep_orc.Workers.{
  effective_status, dashboard_workers, list_online_workers, get_worker, least_loaded, pick_worker,
  resolve_worker_for_gateway,
}
use deep_orc.Workers.Placement.{
  IsPlaceable, resolve_worker_for_gateway-IsPlaceable, none_less, pick_worker-least,
}
use deep_orc.Gateways.{CreateGatewayRequest, CreateGatewayResult}
use deep_orc.Gateways.Create.{store_gateway, create_gateway}
use deep_orc.Gateways.Create.Laws.{create_gateway_atomic, IsCreated, create_gateway-IsCreated}
use deep_orc.Gateways.Lifecycle.{prepare_provisioning, request_delete_gateway}
use deep_orc.Gateways.Lifecycle.Laws.{
  IsDeleting, request_delete_gateway-IsDeleting, request_delete_gateway_idem,
}
use deep_orc.Gateways.Lifecycle.Prepare.{prepare_provisioning-pending}
use deep_orc.Gateways.Delete.{forget_node, forget_vm, execute_delete_gateway}
use deep_orc.Gateways.Delete.Laws.{IsDeleted, execute_delete_gateway-IsDeleted}
use deep_orc.Gateways.Delete.Total.{execute_delete_gateway_total}
use deep_orc.Peers.{
  CreatePeerResult, list_by_gateway, is_uplink, uplink_line, set_uplink_lines, get_agent,
  set_gateway_uplink_peer, store_peer, create_peer,
}
use deep_orc.Peers.Uplink.{uplinks, others, set_uplink_lines-uplinks}
use deep_orc.Peers.Laws.{IsLinked, create_peer-IsLinked}
use deep_orc.Tests.Sample.{
  World, platform, settings, remote_worker, gateway_row, job_row, database, session,
}

abbrev request : CreateGatewayRequest
request = record {
  gateway_name = some (codes "n");
  udp_port = none;
  worker_id = some 2;
  peer_group_id = none;
  lan_ip = none;
  macvlan_slot = none;
}

abbrev empty : State World
empty = session (database [] [])

abbrev ready : State World
ready = session (
    database (gateway_row GatewayStatus.ready ∷ [])
      (job_row JobType.create_gateway JobStatus.failed ∷ []))

abbrev empty_of_jobs : State World
empty_of_jobs = session (database (gateway_row GatewayStatus.error ∷ []) [])

abbrev answer : CreateGatewayResult
answer = record { gateway_id = 1; job_id = 1; agent_token = codes "t" }

create_gateway-IsCreated_example :
    IsCreated platform settings request [] [] 1 1
      (create_gateway platform settings request empty).1.db
      (create_gateway platform settings request empty).1.saved
unfolding create_gateway ◌>>=◌ query from_headscale read_world resolve_worker_for_gateway get_worker
    is_local effective_status allocate_vm_ip find_from allocate_udp_port store_gateway commit
create_gateway-IsCreated_example =
    create_gateway-IsCreated platform settings request empty answer refl

abbrev taken_name : CreateGatewayRequest
taken_name = record request { gateway_name = some (codes "g") }

create_gateway_atomic_example :
    (create_gateway platform settings taken_name ready).1.saved ≡ ready.saved
unfolding create_gateway ◌>>=◌ query
create_gateway_atomic_example =
    create_gateway_atomic platform settings taken_name ready (value_error gateway_exists) refl

resolve_worker_for_gateway-IsPlaceable_example :
    IsPlaceable 1000 remote_worker × ((k : ℕ) → some 2 ≡ some k → 2 ≡ k)
unfolding resolve_worker_for_gateway get_worker is_local effective_status
resolve_worker_for_gateway-IsPlaceable_example =
    resolve_worker_for_gateway-IsPlaceable 1000 (some 2) (database [] []) remote_worker refl

pick_worker-least_example :
    IsPlaceable 1000 remote_worker
    × (none_less (database [] []) remote_worker (list_online_workers 1000 (database [] [])) ≡ true)
unfolding pick_worker list_online_workers dashboard_workers is_local effective_status least_loaded
pick_worker-least_example = pick_worker-least 1000 (database [] []) remote_worker refl

request_delete_gateway-IsDeleting_example :
    IsDeleting platform settings 3 8 (request_delete_gateway platform settings 3 ready).1.db
unfolding request_delete_gateway query ask read_world get_latest_delete_job write commit
    update_gateway_status
request_delete_gateway-IsDeleting_example =
    request_delete_gateway-IsDeleting platform settings 3 ready 8 refl

request_delete_gateway_idem_example :
    request_delete_gateway platform settings 3 (request_delete_gateway platform settings 3 ready).1
    ≡ (ok 8, (request_delete_gateway platform settings 3 ready).1)
unfolding request_delete_gateway query ask read_world get_latest_delete_job write commit
    update_gateway_status
request_delete_gateway_idem_example = request_delete_gateway_idem platform settings 3 ready 8 refl

prepare_provisioning-pending_example :
    (any (is_pending_of 3) (prepare_provisioning platform settings 3 empty_of_jobs).1.db.jobs
      ≡ true)
    × ((prepare_provisioning platform settings 3 empty_of_jobs).1.saved
        ≡ (prepare_provisioning platform settings 3 empty_of_jobs).1.db)
unfolding prepare_provisioning ◌>>=◌ query write write_at commit
prepare_provisioning-pending_example =
    prepare_provisioning-pending platform settings 3 empty_of_jobs refl

execute_delete_gateway-IsDeleted_example :
    IsDeleted platform 3
      (execute_delete_gateway platform 3 (some 7) ready).1.db
      (execute_delete_gateway platform 3 (some 7) ready).1.saved
unfolding execute_delete_gateway ◌>>=◌ ask forget_node try_except query get_worker forget_vm write
    write_at commit
execute_delete_gateway-IsDeleted_example =
    execute_delete_gateway-IsDeleted platform 3 (some 7) ready (gateway_row GatewayStatus.ready)
      refl refl

no_failure : (e : Failure) → ◌≡◌ {A = Result Bool} (ok true) (err e) → e ≡ headscale_error
no_failure e h = cc

execute_delete_gateway_total_example : (execute_delete_gateway platform 3 (some 7) ready).0 ≡ ok tt
unfolding get_worker
execute_delete_gateway_total_example =
    execute_delete_gateway_total platform 3 (some 7) ready (gateway_row GatewayStatus.ready)
      remote_worker refl refl (λ x e h. no_failure e h)

abbrev new_link : CreatePeerResult
new_link = record {
  peer = record {
    id = 1;
    gateway_id = 3;
    name = codes "l";
    public_key = codes "q";
    private_key_enc = codes "k";
    allowed_ip = 4098;
    suspended = false;
  };
  client_key = codes "k";
}

create_peer-IsLinked_example :
    IsLinked platform 3 [] new_link.peer
      (create_peer platform 3 (codes "l") ready).1.db
      (create_peer platform 3 (codes "l") ready).1.saved
unfolding create_peer ◌>>=◌ get_agent query outside list_by_gateway allocate_peer_ip find_from
    store_peer set_gateway_uplink_peer ask get_worker commit
create_peer-IsLinked_example = create_peer-IsLinked platform 3 (codes "l") ready new_link refl

set_uplink_lines-uplinks_example :
    (any is_uplink (set_uplink_lines (codes "q") (codes "A=1" ∷ [])) ≡ true)
    × (all
          (λ line. line == uplink_line (codes "q"))
          (uplinks (set_uplink_lines (codes "q") (codes "A=1" ∷ [])))
        ≡ true)
    × (others (set_uplink_lines (codes "q") (codes "A=1" ∷ [])) ≡ others (codes "A=1" ∷ []))
set_uplink_lines-uplinks_example = set_uplink_lines-uplinks (codes "q") (codes "A=1" ∷ [])
