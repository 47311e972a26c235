-- ===== src/Gateways/Create.antt =====
-- `GatewayService.create_gateway`.
pub mod Rows
pub mod Laws
use deep_orc.Prelude.{◌==◌, nat_eq, any, Text, codes, text_eq, ℕ, Option, none, some, ◌++◌}
use deep_orc.Models.{
  GatewayStatus, JobType, JobStatus, gateway_exists, preauth_failed, no_name, Gateway, Job, Worker,
}
use deep_orc.Tables.{keys}
use deep_orc.Effects.{pure, gets, require, modify, raise_if, ◌>>=◌, ◌>>◌}
use deep_orc.Database.{
  Database, gateway_keyed, job_keyed, peer_keyed, group_keyed, worker_keyed, enrollment_keyed,
  registration_keyed, Query,
}
use deep_orc.Pools.{allocate_vm_ip}
use deep_orc.Wg.{allocate_wg_subnet}
use deep_orc.Database.Gateways.{create_gateway_row, update_gateway}
use deep_orc.Database.Jobs.{create_job_row}
use deep_orc.Platform.{KeyPair, Platform, Settings}
use deep_orc.Session.{Action, query, outside, read_world, from_headscale, commit}
use deep_orc.Workers.{resolve_worker_for_gateway}
use deep_orc.Gateways.{
  exit_node_pending, CreateGatewayRequest, CreateGatewayResult, chosen_name, chosen_port,
}

module _ {W : Type 0} (p : Platform W) (config : Settings) where
  -- The row before its key and its subnet are known.
  abbrev pub new_gateway :
      CreateGatewayRequest
      → Text
      → Worker
      → ℕ
      → ℕ
      → KeyPair
      → Text
      → Text
      → Text
      → Text
      → ℕ
      → Gateway
  new_gateway request name worker vm_ip udp_port pair privkey_enc key_enc token token_enc id =
      record {
        id = id;
        worker_id = worker.id;
        peer_group_id = request.peer_group_id;
        lan_ip = request.lan_ip;
        macvlan_slot = request.macvlan_slot;
        name = name;
        incus_instance = codes "gw-" ++ name;
        vm_ip = vm_ip;
        udp_port = udp_port;
        wg_subnet = none;
        wg_server_pubkey = pair.public_key;
        wg_server_privkey_enc = privkey_enc;
        exit_node_id = exit_node_pending;
        tailscale_auth_key_enc = key_enc;
        tailscale_hostname = name;
        agent_token_hash = p.hash_token token;
        agent_token_enc = token_enc;
        status = GatewayStatus.pending;
        error_message = none;
      }

  abbrev pub new_job : JobType → ℕ → ℕ → ℕ → Job
  new_job type gateway_id now id = record {
    id = id;
    type = type;
    gateway_id = some gateway_id;
    status = JobStatus.pending;
    error = none;
    stage = none;
    stage_updated_at = none;
    updated_at = now;
  }

  abbrev pub fresh_gateway_id : Database → ℕ
  fresh_gateway_id db = p.new_key (keys db.gateways)

  abbrev pub fresh_job_id : Database → ℕ
  fresh_job_id db = p.new_key (keys db.jobs)

  -- The row is flushed, its subnet computed from its key, and its job added.
  unfoldable pub store_gateway : (ℕ → Gateway) → ℕ → Query (ℕ × ℕ)
  unfolding create_gateway_row create_job_row update_gateway ◌>>=◌
  store_gateway row now = do
    gateway_id ← gets fresh_gateway_id
    create_gateway_row (row gateway_id)
    let subnet = (allocate_wg_subnet config.wg_subnet_base gateway_id).subnet
    modify (update_gateway gateway_id (λ g. record g { wg_subnet = some subnet }))
    job_id ← gets fresh_job_id
    modify (create_job_row (new_job JobType.create_gateway gateway_id now job_id))
    pure (gateway_id, job_id)

  unfoldable pub create_gateway : CreateGatewayRequest → Action W CreateGatewayResult
  create_gateway request = do
    name ← query (λ db. require no_name (chosen_name request.gateway_name db) db)
    query (λ db. raise_if (any (λ g. g.name == name) db.gateways) gateway_exists db)
    key ← from_headscale preauth_failed p.create_gateway_preauth_key
    token ← outside p.generate_token
    pair ← outside p.generate_keypair
    now ← read_world p.now
    worker ← query (λ db. (resolve_worker_for_gateway now request.worker_id db, db))
    vm_ip ← query (allocate_vm_ip worker)
    udp_port ← query (chosen_port request.udp_port worker)
    privkey_enc ← outside (p.encrypt_value pair.private_key)
    key_enc ← outside (p.encrypt_value key)
    token_enc ← outside (p.encrypt_value token)
    ids ← query (
        store_gateway
          (new_gateway request name worker vm_ip udp_port pair privkey_enc key_enc token token_enc)
          now)
    commit
    pure (record { gateway_id = ids.0; job_id = ids.1; agent_token = token })
