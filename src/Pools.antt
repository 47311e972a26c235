-- ===== src/Pools.antt =====
-- orchestrator/incus/network.py: the pools of VM addresses and UDP ports of a worker.
pub mod Constraints
pub mod VmIp
pub mod UdpPort
use deep_orc.Prelude.{
  if◌then◌else◌, ◌==◌, nat_eq, any, select, contains, find_from, text_eq, ℕ, ◌+◌, ◌-◌, Bool, ◌&&◌,
  Option, none, List, [], ◌∷◌, ◌++◌, map,
}
use deep_orc.Models.Ipv4.{broadcast_address}
use deep_orc.Models.{no_vm_ip, no_udp_port, integrity_error, PortAllocation, IpAllocation, Worker}
use deep_orc.Effects.{ok, err, pure, gets, require, ◌>>=◌, ◌>>◌}
use deep_orc.Database.{
  Database, gateway_keyed, job_keyed, peer_keyed, group_keyed, worker_keyed, enrollment_keyed,
  registration_keyed, Query,
}

-- `UniqueConstraint("worker_id", "address")`
abbrev pub same_ip : IpAllocation → IpAllocation → Bool
same_ip a b = a.worker_id == b.worker_id && a.address == b.address

-- `UniqueConstraint("worker_id", "udp_port")`
abbrev pub same_port : PortAllocation → PortAllocation → Bool
same_port a b = a.worker_id == b.worker_id && a.udp_port == b.udp_port

-- `session.add(…); session.flush()`: the database refuses a row that breaks a constraint.
unfoldable pub add_ip_allocation : IpAllocation → Query (Unit {0})
add_ip_allocation row db =
    if any (same_ip row) db.ip_allocations
    then (err integrity_error, db)
    else (ok tt, record db { ip_allocations = db.ip_allocations ++ row ∷ [] })

unfoldable pub add_port_allocation : PortAllocation → Query (Unit {0})
add_port_allocation row db =
    if any (same_port row) db.port_allocations
    then (err integrity_error, db)
    else (ok tt, record db { port_allocations = db.port_allocations ++ row ∷ [] })

-- `session.delete` of the first row that a query finds, if there is one
abbrev pub remove_first {ℓ} : {A : Type ℓ} → (A → Bool) → List A → List A
remove_first p [] = []
remove_first p (r ∷ rows) = if p r then rows else r ∷ remove_first p rows

-- `used_vm_ips | used_allocations`
abbrev pub used_vm_ips : Worker → Database → List ℕ
used_vm_ips worker db =
    map (λ g. g.vm_ip) (select (λ g. g.worker_id == worker.id) db.gateways)
    ++ map (λ a. a.address) (select (λ a. a.worker_id == worker.id) db.ip_allocations)

-- The loop tries the addresses from the start of the pool to the one below the broadcast address.
unfoldable pub allocate_vm_ip : Worker → Query ℕ
unfolding add_ip_allocation ◌>>=◌
allocate_vm_ip worker = do
  used ← gets (used_vm_ips worker)
  let start = worker.ip_pool_start
  let count = broadcast_address worker.ip_pool_network - start
  candidate ← require no_vm_ip (find_from (contains used) count start)
  add_ip_allocation
      (record { worker_id = worker.id; address = candidate; gateway_id = none; peer_id = none })
  pure candidate

abbrev pub used_ports : Worker → Database → List ℕ
used_ports worker db =
    map (λ g. g.udp_port) (select (λ g. g.worker_id == worker.id) db.gateways)
    ++ map (λ a. a.udp_port) (select (λ a. a.worker_id == worker.id) db.port_allocations)

-- `range(port_pool_start, port_pool_end + 1)`
unfoldable pub allocate_udp_port : Worker → Option ℕ → Query ℕ
unfolding add_port_allocation ◌>>=◌
allocate_udp_port worker gateway_id = do
  used ← gets (used_ports worker)
  let start = worker.port_pool_start
  port ← require no_udp_port (find_from (contains used) (worker.port_pool_end + 1 - start) start)
  add_port_allocation (record { worker_id = worker.id; udp_port = port; gateway_id = gateway_id })
  pure port

abbrev pub is_vm_ip_row : ℕ → ℕ → IpAllocation → Bool
is_vm_ip_row worker_id ip a = a.worker_id == worker_id && a.address == ip

unfoldable pub release_vm_ip : ℕ → ℕ → Database → Database
release_vm_ip worker_id ip db = record db {
  ip_allocations = remove_first (is_vm_ip_row worker_id ip) db.ip_allocations;
}

abbrev pub is_port_row : ℕ → ℕ → PortAllocation → Bool
is_port_row worker_id port a = a.worker_id == worker_id && a.udp_port == port

unfoldable pub release_udp_port : ℕ → ℕ → Database → Database
release_udp_port worker_id port db = record db {
  port_allocations = remove_first (is_port_row worker_id port) db.port_allocations;
}
