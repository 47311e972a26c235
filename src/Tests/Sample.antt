-- ===== src/Tests/Sample.antt =====
-- A small installation: one remote worker, its gateways and jobs, and an outside world in which
-- every operation succeeds.
use deep_orc.Prelude.{
  nat_beq_iff, nat_eq, contains, codes, text_eq, ℕ, ◌+◌, ◌<◌, max, ◌≡◌, Bool, true, none, some,
  List, [], ◌∷◌, arith,
}
use deep_orc.Models.Ipv4.{Network}
use deep_orc.Models.{GatewayStatus, JobType, JobStatus, WorkerStatus, Gateway, Job, Worker}
use deep_orc.Effects.{ok, Exec}
use deep_orc.Database.{
  Database, gateway_keyed, job_keyed, peer_keyed, group_keyed, worker_keyed, enrollment_keyed,
  registration_keyed,
}
use deep_orc.Platform.{Platform, Settings}
use deep_orc.Session.{State}
use deep_orc.Agent.RuleLog.{words_eq}

abbrev pub next_key : List ℕ → ℕ
next_key [] = 1
next_key (k ∷ ks) = max (k + 1) (next_key ks)

pub next_key_above : (ks : List ℕ) (k : ℕ) → contains ks k ≡ true → k < next_key ks
next_key_above [] k h = cc
next_key_above (j ∷ ks) k h = ground (arith, next_key_above ks k, nat_beq_iff j k)

abbrev pub World : Type 0
World = Unit {0}

abbrev pub succeeds : {W A : Type 0} → A → Exec W A
succeeds a w = (ok a, w)

-- All goes well outside, but for whether the agents are online.
abbrev pub platform_with : {W : Type 0} → (Gateway → Exec W Bool) → Platform W
platform_with agent_online = record {
  now = λ w. 1000;
  new_key = next_key;
  new_key_above = next_key_above;
  generate_token = succeeds (codes "t");
  generate_keypair = succeeds (record { private_key = codes "k"; public_key = codes "q" });
  encrypt_value = λ s. succeeds s;
  decrypt_value = λ s. succeeds s;
  hash_token = λ s. s;
  create_gateway_preauth_key = succeeds (codes "a");
  create_worker_preauth_key = succeeds (codes "b");
  find_gateway_headscale_node = λ ip names. succeeds none;
  list_headscale_nodes = succeeds [];
  get_node_tailscale_ip_by_hostname = λ name. succeeds none;
  approve_node_exit_route = λ id. succeeds true;
  approve_exit_routes_for_tagged_nodes = succeeds 0;
  rename_headscale_node = λ id name. succeeds tt;
  delete_gateway_headscale_node = λ ip names. succeeds true;
  agent = λ g call. succeeds tt;
  agent_online = agent_online;
  vm = λ g call. succeeds tt;
  read_exit_env = λ g. succeeds none;
  write_exit_env = λ g lines. succeeds tt;
  add_worker_remote = λ name url token.
      succeeds
        (record { cert_path = codes "c"; key_path = codes "k"; server_cert_path = codes "s" });
}

abbrev pub platform : Platform World
platform = platform_with (λ g. succeeds true)

abbrev pub pool : Network
pool = record { network_address = 256; num_addresses = 256 }

abbrev pub settings : Settings
settings = record {
  wg_subnet_base = 10;
  port_pool_start = 51820;
  port_pool_end = 51829;
  ip_pool_network = pool;
  ip_pool_start = 260;
  wg_endpoint_host = [];
  public_orchestrator_url = codes "u";
}

abbrev pub remote_worker : Worker
remote_worker = record {
  id = 2;
  name = codes "w";
  display_name = codes "w";
  public_ip = codes "p";
  tailscale_hostname = none;
  incus_remote = none;
  incus_url = some (codes "u");
  incus_cert_path = none;
  incus_key_path = none;
  incus_server_cert_path = none;
  worker_token_hash = [];
  port_pool_start = 51820;
  port_pool_end = 51829;
  ip_pool_network = pool;
  ip_pool_start = 260;
  enabled = true;
  status = WorkerStatus.online;
  last_seen_at = some 990;
}

abbrev pub gateway_row : GatewayStatus → Gateway
gateway_row status = record {
  id = 3;
  worker_id = 2;
  peer_group_id = some 5;
  lan_ip = some 512;
  macvlan_slot = none;
  name = codes "g";
  incus_instance = codes "i";
  vm_ip = 260;
  udp_port = 51820;
  wg_subnet = some (record { network_address = 4096; num_addresses = 256 });
  wg_server_pubkey = [];
  wg_server_privkey_enc = [];
  exit_node_id = codes "pending";
  tailscale_auth_key_enc = [];
  tailscale_hostname = codes "g";
  agent_token_hash = [];
  agent_token_enc = [];
  status = status;
  error_message = none;
}

abbrev pub job_row : JobType → JobStatus → Job
job_row type status = record {
  id = 7;
  type = type;
  gateway_id = some 3;
  status = status;
  error = none;
  stage = none;
  stage_updated_at = none;
  updated_at = 10;
}

abbrev pub database : List Gateway → List Job → Database
database gateways jobs = record {
  gateways = gateways;
  jobs = jobs;
  peers = [];
  peer_groups = [];
  workers = remote_worker ∷ [];
  ip_allocations = record { worker_id = 2; address = 260; gateway_id = none; peer_id = none } ∷ [];
  port_allocations = record { worker_id = 2; udp_port = 51820; gateway_id = none } ∷ [];
  enrollments = [];
  registrations = [];
}

abbrev pub session : Database → State World
session db = record { db = db; saved = db; world = tt }
