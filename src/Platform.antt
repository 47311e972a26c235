-- ===== src/Platform.antt =====
-- What the services call and this library does not define: the clock, the random and
-- cryptographic primitives, the database's choice of keys, and, as operations on an outside world
-- `W`, Headscale, Incus, the gateway agents and the files on the gateways. An operation may raise
-- whatever it likes, and changes only the world.
use deep_orc.Prelude.{
  Bool-cases, nat_eq, contains, Text, text_eq, ℕ, ◌<◌, ◌≡◌, inl, inr, Bool, true, false, Option,
  List, arith,
}
use deep_orc.Models.Ipv4.{Network}
use deep_orc.Models.{Gateway}
use deep_orc.Effects.{Exec}
use deep_orc.Database.{
  gateway_keyed, job_keyed, peer_keyed, group_keyed, worker_keyed, enrollment_keyed,
  registration_keyed,
}

pub record Node : Type 0 where
  pub node_id : Option ℕ
  pub node_name : Text

pub record KeyPair : Type 0 where
  pub private_key : Text
  pub public_key : Text

-- The files of the certificates of an Incus remote.
pub record RemotePaths : Type 0 where
  pub cert_path : Text
  pub key_path : Text
  pub server_cert_path : Text

-- The requests to a gateway's agent, services/gateway_agent_client.py.
pub data AgentCall : Type 0 where
  health : AgentCall
  register : Text → AgentCall
  advertise_exit_node : AgentCall
  run_exit_via_wg : AgentCall
  set_tailscale_hostname : Text → AgentCall
  add_peer : Text → Text → AgentCall
  remove_peer : Text → AgentCall
  suspend_peer : Text → ℕ → AgentCall
  resume_peer : Text → ℕ → AgentCall

-- The operations on a gateway's VM, orchestrator/incus/vm.py and gateway_post_reboot.py.
pub data VmCall : Type 0 where
  launch_gateway_vm : VmCall
  restart_gateway_vm : VmCall
  delete_gateway_vm : VmCall
  apply_gateway_post_reboot : VmCall

pub record Platform (W : Type 0) : Type 0 where
  pub now : W → ℕ
  pub new_key : List ℕ → ℕ
  -- a new primary key is greater than those in use
  pub new_key_above : (ks : List ℕ) (k : ℕ) → contains ks k ≡ true → k < new_key ks
  pub generate_token : Exec W Text
  pub generate_keypair : Exec W KeyPair
  pub encrypt_value : Text → Exec W Text
  pub decrypt_value : Text → Exec W Text
  pub hash_token : Text → Text
  pub create_gateway_preauth_key : Exec W Text
  pub create_worker_preauth_key : Exec W Text
  pub find_gateway_headscale_node : Option Text → List Text → Exec W (Option Node)
  pub list_headscale_nodes : Exec W (List Node)
  pub get_node_tailscale_ip_by_hostname : Text → Exec W (Option Text)
  pub approve_node_exit_route : ℕ → Exec W Bool
  pub approve_exit_routes_for_tagged_nodes : Exec W ℕ
  pub rename_headscale_node : ℕ → Text → Exec W (Unit {0})
  pub delete_gateway_headscale_node : Option Text → List Text → Exec W Bool
  pub agent : Gateway → AgentCall → Exec W (Unit {0})
  -- whether the agent's health says that both WireGuard and Tailscale are online
  pub agent_online : Gateway → Exec W Bool
  pub vm : Gateway → VmCall → Exec W (Unit {0})
  pub read_exit_env : Gateway → Exec W (Option (List Text))
  pub write_exit_env : Gateway → List Text → Exec W (Unit {0})
  pub add_worker_remote : Text → Text → Text → Exec W RemotePaths

-- orchestrator/config.py, the settings that the services read
pub record Settings : Type 0 where
  pub wg_subnet_base : ℕ
  pub port_pool_start : ℕ
  pub port_pool_end : ℕ
  pub ip_pool_network : Network
  pub ip_pool_start : ℕ
  pub wg_endpoint_host : Text
  pub public_orchestrator_url : Text

pub new_key_fresh : {W : Type 0} (p : Platform W) (ks : List ℕ) → contains ks (p.new_key ks) ≡ false
new_key_fresh p ks = elim (Bool-cases (contains ks (p.new_key ks))) [
  | inl old ↦ absurd (omega (arith, p.new_key_above ks (p.new_key ks) old))
  | inr new ↦ new
]
