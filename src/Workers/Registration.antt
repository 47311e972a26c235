-- ===== src/Workers/Registration.antt =====
-- orchestrator/services/worker_service.py: registration, authentication and heartbeat of workers.
use deep_orc.Prelude.{
  if◌then◌else◌, ◌==◌, nat_eq, any, Text, codes, text_eq, is_empty, ℕ, Bool, true, false, not, ◌||◌,
  Option, none, some,
}
use deep_orc.Models.Ipv4.{Network}
use deep_orc.Models.{WorkerStatus, worker_exists, bad_token, Worker}
use deep_orc.Tables.{keys}
use deep_orc.Effects.{pure, gets, raise_if, ◌>>=◌, ◌>>◌}
use deep_orc.Database.{
  gateway_keyed, job_keyed, peer_keyed, group_keyed, worker_keyed, enrollment_keyed,
  registration_keyed, Query,
}
use deep_orc.Database.Workers.{get_worker_by_name, create_worker_row, update_worker, update_stats}
use deep_orc.Platform.{Platform, Settings}
use deep_orc.Session.{Action, query, outside, ask, commit, write, write_at}
use deep_orc.Workers.{get_worker}

pub record RegisterWorkerResult : Type 0 where
  pub worker : Worker
  pub worker_token : Text

pub record RegisterWorkerRequest : Type 0 where
  pub name : Text
  pub display_name : Option Text
  pub public_ip : Text
  pub tailscale_hostname : Option Text
  pub incus_remote : Option Text
  pub incus_url : Option Text
  pub incus_cert_path : Option Text
  pub incus_key_path : Option Text
  pub incus_server_cert_path : Option Text
  pub port_pool_start : Option ℕ
  pub port_pool_end : Option ℕ
  pub ip_pool_network : Option Network
  pub ip_pool_start : Option ℕ

-- `value or default`: an empty text and 0 count as missing.
abbrev pub text_or : Option Text → Text → Text
text_or none default = default
text_or (some t) default = if is_empty t then default else t

abbrev pub number_or : Option ℕ → ℕ → ℕ
number_or none default = default
number_or (some n) default = if n == 0 then default else n

abbrev pub network_or : Option Network → Network → Network
network_or none default = default
network_or (some n) default = n

-- `verify_token` of orchestrator/crypto.py
abbrev pub verify_token : {W : Type 0} → Platform W → Text → Text → Bool
verify_token p token token_hash = p.hash_token token == token_hash

module _ {W : Type 0} (p : Platform W) (config : Settings) where
  abbrev pub registered_worker : RegisterWorkerRequest → Text → ℕ → Worker
  registered_worker request token id = record {
    id = id;
    name = request.name;
    display_name = text_or request.display_name request.name;
    public_ip = request.public_ip;
    tailscale_hostname = request.tailscale_hostname;
    incus_remote = request.incus_remote;
    incus_url = request.incus_url;
    incus_cert_path = request.incus_cert_path;
    incus_key_path = request.incus_key_path;
    incus_server_cert_path = request.incus_server_cert_path;
    worker_token_hash = p.hash_token token;
    port_pool_start = number_or request.port_pool_start config.port_pool_start;
    port_pool_end = number_or request.port_pool_end config.port_pool_end;
    ip_pool_network = network_or request.ip_pool_network config.ip_pool_network;
    ip_pool_start = number_or request.ip_pool_start config.ip_pool_start;
    enabled = true;
    status = WorkerStatus.offline;
    last_seen_at = none;
  }

  -- The row is added and flushed.
  unfoldable pub store_worker : (ℕ → Worker) → Query Worker
  unfolding create_worker_row
  store_worker row = do
    id ← gets (λ db. p.new_key (keys db.workers))
    create_worker_row (row id)
    pure (row id)

  unfoldable pub register_worker : RegisterWorkerRequest → Action W RegisterWorkerResult
  register_worker request = do
    query (λ db. raise_if (any (λ w. w.name == request.name) db.workers) worker_exists db)
    token ← outside p.generate_token
    w ← query (store_worker (registered_worker request token))
    commit
    pure (record { worker = w; worker_token = token })

  unfoldable pub authenticate_worker : ℕ → Text → Action W Worker
  authenticate_worker worker_id token = do
    w ← query (λ db. (get_worker worker_id db, db))
    query (λ db. raise_if (not (verify_token p token w.worker_token_hash)) bad_token db)
    pure w

  unfoldable pub record_heartbeat : Worker → Action W (Unit {0})
  record_heartbeat w = do write_at p.now (update_stats w.id); commit

  -- `ensure_default_local_worker`
  abbrev pub local_name : Text
  local_name = codes "local"

  abbrev pub is_default_ip : Text → Bool
  is_default_ip ip = is_empty ip || ip == codes "127.0.0.1"

  abbrev pub repool : Worker → Worker
  repool w = record w {
    public_ip = config.wg_endpoint_host;
    port_pool_start = config.port_pool_start;
    port_pool_end = config.port_pool_end;
    ip_pool_network = config.ip_pool_network;
    ip_pool_start = config.ip_pool_start;
  }

  abbrev pub as_local : Worker → Worker
  as_local w =
      let off = record w { enabled = false } in
      if is_default_ip w.public_ip then repool off else off

  abbrev pub new_local : Text → ℕ → Worker
  new_local token id = record {
    id = id;
    name = local_name;
    display_name = codes "Local (control plane)";
    public_ip = config.wg_endpoint_host;
    tailscale_hostname = none;
    incus_remote = none;
    incus_url = none;
    incus_cert_path = none;
    incus_key_path = none;
    incus_server_cert_path = none;
    worker_token_hash = p.hash_token token;
    port_pool_start = config.port_pool_start;
    port_pool_end = config.port_pool_end;
    ip_pool_network = config.ip_pool_network;
    ip_pool_start = config.ip_pool_start;
    enabled = false;
    status = WorkerStatus.offline;
    last_seen_at = none;
  }

  abbrev pub ensure_local : Option Worker → Action W Worker
  ensure_local none = do
    token ← outside p.generate_token
    w ← query (store_worker (new_local token))
    commit
    pure w
  ensure_local (some w) = do write (update_worker w.id as_local); commit; pure (as_local w)

  unfoldable pub ensure_default_local_worker : Action W Worker
  ensure_default_local_worker = do w ← ask (get_worker_by_name local_name); ensure_local w
