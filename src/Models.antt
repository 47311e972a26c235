-- ===== src/Models.antt =====
-- orchestrator/models/*.py: the rows of the database.
-- An IPv4 address column is the number that its canonical text stands for, a subnet column the
-- parsed network, and a point in time the number of its seconds. `None` is `none`.
pub mod Ipv4
use deep_orc.Prelude.{nat_eq, Text, text_eq, is_empty, ℕ, Bool, true, Option, none, some}
use deep_orc.Models.Ipv4.{Network}

pub data GatewayStatus : Type 0 where
  pending : GatewayStatus
  provisioning : GatewayStatus
  ready : GatewayStatus
  error : GatewayStatus
  deleting : GatewayStatus

pub data JobType : Type 0 where
  create_gateway : JobType
  delete_gateway : JobType

pub data JobStatus : Type 0 where
  pending : JobStatus
  running : JobStatus
  completed : JobStatus
  failed : JobStatus

pub data WorkerStatus : Type 0 where
  online : WorkerStatus
  offline : WorkerStatus
  disabled : WorkerStatus

pub data RegistrationRequestStatus : Type 0 where
  pending : RegistrationRequestStatus
  approved : RegistrationRequestStatus
  rejected : RegistrationRequestStatus

-- The conditions for which the services raise `ValueError`.
pub data Reason : Type 0 where
  gateway_exists : Reason
  gateway_not_found : Reason
  gateway_not_ready : Reason
  preauth_failed : Reason
  no_vm_ip : Reason
  no_udp_port : Reason
  no_peer_ip : Reason
  no_lan_ip : Reason
  no_name : Reason
  bad_subnet : Reason
  bad_start_ip : Reason
  bad_name : Reason
  bad_count : Reason
  lan_exhausted : Reason
  name_taken : Reason
  node_missing : Reason
  peer_limit : Reason
  peer_exists : Reason
  peer_not_found : Reason
  group_exists : Reason
  group_not_found : Reason
  group_not_empty : Reason
  worker_exists : Reason
  worker_not_found : Reason
  worker_is_local : Reason
  worker_disabled : Reason
  worker_offline : Reason
  no_worker : Reason
  ambiguous_worker : Reason
  bad_token : Reason
  token_used : Reason
  token_expired : Reason
  remote_failed : Reason
  no_public_ip : Reason
  address_overflow : Reason
  bad_key : Reason
  bad_json : Reason
  no_display_code : Reason
  process_failed : Reason
  bad_address : Reason

-- The exceptions that the services tell apart.
pub data Failure : Type 0 where
  value_error : Reason → Failure
  headscale_error : Failure
  agent_error : Failure
  incus_error : Failure
  integrity_error : Failure

-- What is written to an `error_message` or `error` column.
pub data Message : Type 0 where
  health_timeout : Message
  advertise_failed : Failure → Message
  deletion_failed : Failure → Message
  failure : Failure → Message

pub record Gateway : Type 0 where
  pub id : ℕ
  pub worker_id : ℕ
  pub peer_group_id : Option ℕ
  pub lan_ip : Option ℕ
  pub macvlan_slot : Option ℕ
  pub name : Text
  pub incus_instance : Text
  pub vm_ip : ℕ
  pub udp_port : ℕ
  pub wg_subnet : Option Network  -- `none` is the text "pending"
  pub wg_server_pubkey : Text
  pub wg_server_privkey_enc : Text
  pub exit_node_id : Text
  pub tailscale_auth_key_enc : Text
  pub tailscale_hostname : Text
  pub agent_token_hash : Text
  pub agent_token_enc : Text
  pub status : GatewayStatus
  pub error_message : Option Message

pub record Job : Type 0 where
  pub id : ℕ
  pub type : JobType
  pub gateway_id : Option ℕ
  pub status : JobStatus
  pub error : Option Message
  pub stage : Option Text
  pub stage_updated_at : Option ℕ
  pub updated_at : ℕ

pub record Peer : Type 0 where
  pub id : ℕ
  pub gateway_id : ℕ
  pub name : Text
  pub public_key : Text
  pub private_key_enc : Text
  pub allowed_ip : ℕ
  pub suspended : Bool

pub record PeerGroup : Type 0 where
  pub id : ℕ
  pub name : Text
  pub worker_id : ℕ
  pub lan_subnet : Network
  pub lan_start_ip : ℕ
  pub lan_gateway : Option ℕ
  pub parent_iface : Option Text

pub record PortAllocation : Type 0 where
  pub worker_id : ℕ
  pub udp_port : ℕ
  pub gateway_id : Option ℕ

pub record IpAllocation : Type 0 where
  pub worker_id : ℕ
  pub address : ℕ
  pub gateway_id : Option ℕ
  pub peer_id : Option ℕ

pub record Worker : Type 0 where
  pub id : ℕ
  pub name : Text
  pub display_name : Text
  pub public_ip : Text
  pub tailscale_hostname : Option Text
  pub incus_remote : Option Text
  pub incus_url : Option Text
  pub incus_cert_path : Option Text
  pub incus_key_path : Option Text
  pub incus_server_cert_path : Option Text
  pub worker_token_hash : Text
  pub port_pool_start : ℕ
  pub port_pool_end : ℕ
  pub ip_pool_network : Network
  pub ip_pool_start : ℕ
  pub enabled : Bool
  pub status : WorkerStatus
  pub last_seen_at : Option ℕ

-- `Worker.is_local`: no URL, or an empty one.
unfoldable pub is_local : Worker → Bool
is_local w = elim w.incus_url [ none ↦ true | some url ↦ is_empty url ]

pub record WorkerEnrollment : Type 0 where
  pub id : ℕ
  pub token_hash : Text
  pub name : Text
  pub display_name : Text
  pub public_ip : Text
  pub tailscale_hostname : Text
  pub expires_at : ℕ
  pub enroll_token_enc : Option Text
  pub headscale_auth_key_enc : Option Text
  pub used_at : Option ℕ
  pub worker_id : Option ℕ
  pub created_at : ℕ

pub record RegistrationRequest : Type 0 where
  pub id : ℕ
  pub registration_key : Text
  pub display_code : Text
  pub status : RegistrationRequestStatus
  pub headscale_node_id : Option ℕ
  pub tailscale_ip : Option Text
  pub created_at : ℕ
  pub resolved_at : Option ℕ
