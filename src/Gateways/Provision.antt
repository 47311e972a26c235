-- ===== src/Gateways/Provision.antt =====
-- `GatewayService`: provisioning, the exit node, the display name and the restart of a gateway.
pub mod PeerSetup
pub mod Rows
pub mod Waits
pub mod Ends
use deep_orc.Prelude.{
  if◌then◌else◌, ◌==◌, nat_eq, any, Text, text_eq, is_empty, ℕ, zero, suc, Bool, true, false, not,
  ◌&&◌, Option, none, some, [], ◌∷◌,
}
use deep_orc.Naming.{Unicode, NameResult, valid, invalid, validate_tailscale_display_name}
use deep_orc.Models.{
  GatewayStatus, gateway_not_found, gateway_not_ready, bad_name, name_taken, node_missing, Failure,
  value_error, Message, health_timeout, advertise_failed, Gateway,
}
use deep_orc.Effects.{
  Result, ok, err, Exec, pure, lift_result, required, require, raise_if, ◌>>=◌, ◌>>◌, try_except,
}
use deep_orc.Database.{
  Database, gateway_keyed, job_keyed, peer_keyed, group_keyed, worker_keyed, enrollment_keyed,
  registration_keyed, is_just,
}
use deep_orc.Database.Gateways.{
  is_ready, get_gateway, get_by_tailscale_hostname, update_gateway, update_gateway_status,
}
use deep_orc.Platform.{Node, AgentCall, VmCall, Platform}
use deep_orc.Session.{
  Action, query, outside, from_headscale, commit, rollback, write, pass_headscale,
}
use deep_orc.Stages.{
  stage_vm_launch, stage_cloud_init, stage_agent_wait, stage_register, stage_peer_setup, mark_stage,
}
use deep_orc.Gateways.{known_exit_ip}
use deep_orc.Gateways.Lifecycle.{worker_of}
use deep_orc.Peers.{resync_gateway_peers, ensure_backhaul_peer}

-- How many polls the deadlines of the two waits leave time for.
pub record Polls : Type 0 where
  pub cloud_init : ℕ
  pub agent : ℕ

module _ {W : Type 0} (p : Platform W) where
  abbrev pub approve_id : Option ℕ → Action W (Unit {0})
  approve_id none = pure tt
  approve_id (some id) =
      try_except (outside (p.approve_node_exit_route id)) (λ _. pure tt) pass_headscale

  abbrev pub approve_route : Option Node → Action W (Unit {0})
  approve_route none = pure tt
  approve_route (some node) = approve_id node.node_id

  abbrev pub non_empty : Option Text → Option Text
  non_empty none = none
  non_empty (some t) = if is_empty t then none else some t

  -- The second value is asked for only where there is no first one.
  abbrev pub or_ask : Option Text → Exec W (Option Text) → Action W (Option Text)
  or_ask (some ip) again = pure (some ip)
  or_ask none again = outside again

  abbrev pub store_exit : ℕ → Option Text → Database → Database
  store_exit gateway_id none db = db
  store_exit gateway_id (some ip) db =
      update_gateway gateway_id (λ g. record g { exit_node_id = ip }) db

  abbrev pub or_known : Option Text → Option Text → Option Text
  or_known none known = known
  or_known (some ip) known = some ip

  -- `_finalize_exit_node`
  unfoldable pub finalize_exit_node : Gateway → Action W (Unit {0})
  finalize_exit_node g = do
    outside (p.agent g AgentCall.advertise_exit_node)
    node ← outside (p.find_gateway_headscale_node none (g.tailscale_hostname ∷ g.name ∷ []))
    approve_route node
    try_except (outside p.approve_exit_routes_for_tagged_nodes) (λ _. pure tt) pass_headscale
    by_host ← outside (p.get_node_tailscale_ip_by_hostname g.tailscale_hostname)
    by_name ← or_ask (non_empty by_host) (p.get_node_tailscale_ip_by_hostname g.name)
    write (store_exit g.id (or_known (non_empty by_name) (known_exit_ip g)))

  abbrev pub set_gateway_status : ℕ → GatewayStatus → Option Message → Action W (Unit {0})
  set_gateway_status gateway_id status message = do
    write (update_gateway_status gateway_id status message)
    commit

  -- `except Exception: logger.warning(…)`
  unfoldable pub swallow : {A : Type 0} → Action W A → Action W (Unit {0})
  swallow m = try_except m (λ _. pure tt) (λ _. pure tt)

  -- A `ValueError` is ignored; anything else is logged and rolled back.
  abbrev pub skip_or_rollback : Failure → Action W (Unit {0})
  skip_or_rollback (value_error why) = pure tt
  skip_or_rollback e = rollback

  -- The last part, which never fails the provisioning.
  unfoldable pub set_up_peer : ℕ → Gateway → Action W (Unit {0})
  set_up_peer gateway_id g =
      try_except
        (ensure_backhaul_peer p gateway_id
          >> swallow (
              outside (p.agent g AgentCall.advertise_exit_node)
              >> outside (p.agent g AgentCall.run_exit_via_wg)))
        pure skip_or_rollback

  -- The gateway's agent answers: it is registered and becomes an exit node.
  unfoldable pub finish_provisioning : ℕ → Gateway → Option ℕ → Action W (Unit {0})
  finish_provisioning gateway_id g job_id = do
    mark_stage p job_id stage_register
    outside (p.agent g (AgentCall.register g.name))
    try_except (finalize_exit_node g)
        (λ _. do
          set_gateway_status gateway_id GatewayStatus.ready none
          mark_stage p job_id stage_peer_setup
          set_up_peer gateway_id g)
        (λ e. set_gateway_status gateway_id GatewayStatus.error (some (advertise_failed e)))

  -- The agent did not become healthy in time; one more question serves the message only.
  unfoldable pub give_up : ℕ → Gateway → Action W (Unit {0})
  give_up gateway_id g = do
    swallow (outside (p.agent g AgentCall.health))
    set_gateway_status gateway_id GatewayStatus.error (some health_timeout)

  -- The wait for cloud-init: a poll asks for the agent's health, and the next one follows a failure,
  -- until the deadline passes. The first argument is how many there is time for.
  abbrev pub poll_cloud_init : ℕ → Gateway → Option ℕ → Action W (Unit {0})
  poll_cloud_init zero g job_id = pure tt
  poll_cloud_init (suc polls) g job_id = do
    mark_stage p job_id stage_cloud_init
    try_except (outside (p.agent g AgentCall.health)) (λ _. pure tt)
        (λ _. poll_cloud_init polls g job_id)

  -- `wait_until_healthy`, with a heartbeat before each question.
  abbrev pub wait_until_healthy : ℕ → Gateway → Option ℕ → Action W Bool
  wait_until_healthy zero g job_id = pure false
  wait_until_healthy (suc polls) g job_id = do
    mark_stage p job_id stage_agent_wait
    online ← try_except (outside (p.agent_online g)) pure (λ _. pure false)
    let rest = wait_until_healthy polls g job_id
    if online then pure true else rest

  unfoldable pub provision_gateway : Polls → ℕ → Option ℕ → Action W (Unit {0})
  provision_gateway polls gateway_id job_id = do
    g ← query (λ db. require gateway_not_found (get_gateway gateway_id db) db)
    outside (p.decrypt_value g.agent_token_enc)
    outside (p.decrypt_value g.wg_server_privkey_enc)
    outside (p.decrypt_value g.tailscale_auth_key_enc)
    query (worker_of g)
    write (update_gateway_status gateway_id GatewayStatus.provisioning none)
    mark_stage p job_id stage_vm_launch
    commit
    outside (p.vm g VmCall.launch_gateway_vm)
    mark_stage p job_id stage_cloud_init
    poll_cloud_init polls.cloud_init g job_id
    mark_stage p job_id stage_agent_wait
    healthy ← wait_until_healthy polls.agent g job_id
    if healthy then finish_provisioning gateway_id g job_id else give_up gateway_id g

  -- `restart_gateway`
  unfoldable pub restart_gateway : ℕ → Action W ℕ
  restart_gateway gateway_id = do
    g ← query (λ db. require gateway_not_found (get_gateway gateway_id db) db)
    query (λ db. raise_if (not (is_ready g.status)) gateway_not_ready db)
    query (worker_of g)
    outside (p.vm g VmCall.restart_gateway_vm)
    outside (p.vm g VmCall.apply_gateway_post_reboot)
    resync_gateway_peers p gateway_id

  abbrev pub other_owner : ℕ → Option Gateway → Bool
  other_owner gateway_id none = false
  other_owner gateway_id (some g) = not (g.id == gateway_id)

  abbrev pub same_node : ℕ → Node → Bool
  same_node node_id n = is_just n.node_id node_id

  abbrev pub named_node : Option Node → Result ℕ
  named_node none = err (value_error node_missing)
  named_node (some n) = required node_missing n.node_id

  abbrev pub checked_name : NameResult → Result Text
  checked_name (valid name) = ok name
  checked_name (invalid why) = err (value_error bad_name)

  module _ (u : Unicode) where
    abbrev pub rename_to : Gateway → Text → Action W (Unit {0})
    rename_to g new_name = do
      query
          (λ db. raise_if (other_owner g.id (get_by_tailscale_hostname new_name db)) name_taken db)
      node ←
          outside
            (p.find_gateway_headscale_node (known_exit_ip g) (g.tailscale_hostname ∷ g.name ∷ []))
      node_id ← lift_result (named_node node)
      nodes ← outside p.list_headscale_nodes
      query (λ db.
          raise_if (any (λ n. not (same_node node_id n) && n.node_name == new_name) nodes)
            name_taken db)
      from_headscale node_missing (p.rename_headscale_node node_id new_name)
      outside (p.decrypt_value g.agent_token_enc)
      swallow (outside (p.agent g (AgentCall.set_tailscale_hostname new_name)))
      write (update_gateway g.id (λ r. record r { tailscale_hostname = new_name }))
      commit

    -- `rename_tailscale_display_name`
    unfoldable pub rename_tailscale_display_name : ℕ → Text → Action W (Unit {0})
    rename_tailscale_display_name gateway_id display_name = do
      g ← query (λ db. require gateway_not_found (get_gateway gateway_id db) db)
      query (λ db. raise_if (not (is_ready g.status)) gateway_not_ready db)
      new_name ← lift_result (checked_name (validate_tailscale_display_name u display_name))
      if new_name == g.tailscale_hostname then pure tt else rename_to g new_name
