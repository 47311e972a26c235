-- ===== src/Wg.antt =====
-- orchestrator/wg/ipam.py: the WireGuard subnets of gateways and the addresses of their peers.
pub mod Subnets
pub mod PeerIp
use deep_orc.Prelude.{
  ◌==◌, nat_eq, first, select, contains, find_from, text_eq, ℕ, ◌+◌, ◌-◌, ◌*◌, ◌%◌, Bool, true,
  false, not, ◌&&◌, ◌||◌, Option, none, some, List, ◌++◌, map,
}
use deep_orc.Models.Ipv4.{Network, first_host, last_host}
use deep_orc.Models.{no_peer_ip, bad_subnet, Gateway, Peer, IpAllocation}
use deep_orc.Effects.{ok, pure, gets, require, ◌>>=◌, ◌>>◌}
use deep_orc.Database.{
  Database, gateway_keyed, job_keyed, peer_keyed, group_keyed, worker_keyed, enrollment_keyed,
  registration_keyed, is_just, Query,
}
use deep_orc.Pools.{add_ip_allocation, remove_first}

pub record SubnetAllocation : Type 0 where
  pub subnet : Network
  pub gateway_ip : ℕ

-- `wg_subnet_base` is the number of the two octets that the setting gives, and the subnet is
-- `{wg_subnet_base}.{octet}.0/24`.
unfoldable pub allocate_wg_subnet : ℕ → ℕ → SubnetAllocation
allocate_wg_subnet wg_subnet_base gateway_id =
    let octet = gateway_id % 253 + 1 in
    let base = wg_subnet_base * 65536 + octet * 256 in
    record {
      subnet = record { network_address = base; num_addresses = 256 };
      gateway_ip = base + 1;
    }

abbrev pub peer_ips : ℕ → List Peer → List ℕ
peer_ips gateway_id peers = map (λ p. p.allowed_ip) (select (λ p. p.gateway_id == gateway_id) peers)

abbrev pub is_none {ℓ} : {A : Type ℓ} → Option A → Bool
is_none none = true
is_none (some a) = false

-- An allocation of the gateway that no peer of it uses is handed out again.
abbrev pub is_spare : ℕ → List ℕ → IpAllocation → Bool
is_spare gateway_id used a =
    is_just a.gateway_id gateway_id && is_none a.peer_id && not (contains used a.address)

abbrev pub peer_ip_row : Gateway → ℕ → IpAllocation
peer_ip_row gateway ip = record {
  worker_id = gateway.worker_id;
  address = ip;
  gateway_id = some gateway.id;
  peer_id = none;
}

-- The loop over `subnet.hosts()`, which passes over the gateway's own address.
abbrev pub taken_host : Network → List ℕ → ℕ → Bool
taken_host subnet used ip = ip == subnet.network_address + 1 || contains used ip

unfoldable pub new_peer_ip : Gateway → Network → Query ℕ
unfolding add_ip_allocation ◌>>=◌
new_peer_ip gateway subnet = do
  used ← gets (λ db. peer_ips gateway.id db.peers ++ map (λ a. a.address) db.ip_allocations)
  let count = last_host subnet + 1 - first_host subnet
  ip ← require no_peer_ip (find_from (taken_host subnet used) count (first_host subnet))
  add_ip_allocation (peer_ip_row gateway ip)
  pure ip

abbrev pub spare_or_new : Gateway → Network → Option IpAllocation → Query ℕ
spare_or_new gateway subnet (some a) db = (ok a.address, db)
spare_or_new gateway subnet none db = new_peer_ip gateway subnet db

-- A gateway without a subnet has the text "pending", which is no network.
unfoldable pub allocate_peer_ip : Gateway → Query ℕ
unfolding new_peer_ip ◌>>=◌
allocate_peer_ip gateway = do
  subnet ← require bad_subnet gateway.wg_subnet
  spare ← gets (λ db. first (is_spare gateway.id (peer_ips gateway.id db.peers)) db.ip_allocations)
  spare_or_new gateway subnet spare

abbrev pub is_peer_ip_row : ℕ → ℕ → IpAllocation → Bool
is_peer_ip_row gateway_id ip a = is_just a.gateway_id gateway_id && a.address == ip

unfoldable pub release_peer_ip : ℕ → ℕ → Database → Database
release_peer_ip gateway_id ip db = record db {
  ip_allocations = remove_first (is_peer_ip_row gateway_id ip) db.ip_allocations;
}
