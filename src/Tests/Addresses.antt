-- ===== src/Tests/Addresses.antt =====
-- Addresses and ports.
use deep_orc.Prelude.{
  ◌==◌, nat_eq, length, any, contains, find_from, codes, text_eq, ℕ, ◌-◌, ◌%◌, ◌≤◌, ◌<◌, ◌≡◌, refl,
  ◌≢◌, ◌↔◌, ◌⊎◌, true, false, ◌&&◌, ◌||◌, none, [], ◌∷◌, arith,
}
use deep_orc.Models.Ipv4.{Network, broadcast_address, in_network, first_host, last_host}
use deep_orc.Models.{GatewayStatus, no_vm_ip, no_peer_ip, value_error, PeerGroup, Worker}
use deep_orc.Effects.{ok, err}
use deep_orc.Database.{
  Database, gateway_keyed, job_keyed, peer_keyed, group_keyed, worker_keyed, enrollment_keyed,
  registration_keyed,
}
use deep_orc.Pools.{used_vm_ips, allocate_vm_ip, allocate_udp_port, is_vm_ip_row, release_vm_ip}
use deep_orc.Pools.VmIp.{allocate_vm_ip-release, allocate_vm_ip_fails}
use deep_orc.Lan.{group_lan_ips, allocate_lan_ip, remaining_lan_capacity}
use deep_orc.Lan.Laws.{allocate_lan_ip-first_free}
use deep_orc.Lan.Capacity.{capacity-allocate_lan_ip}
use deep_orc.Wg.{peer_ips, is_spare, allocate_wg_subnet, allocate_peer_ip}
use deep_orc.Wg.Subnets.{allocate_wg_subnet-overlap}
use deep_orc.Wg.PeerIp.{IsPeerIp, IsTaken, allocate_peer_ip_lem}
use deep_orc.Agent.RuleLog.{words_eq}
use deep_orc.Tests.Sample.{pool, remote_worker, gateway_row, database}

abbrev installed : Database
installed = database (gateway_row GatewayStatus.ready ∷ []) []

abbrev with_ip : Database
with_ip = (allocate_vm_ip remote_worker installed).1

abbrev with_port : Database
with_port = (allocate_udp_port remote_worker none installed).1

abbrev full_worker : Worker
full_worker = record remote_worker {
  ip_pool_network = record { network_address = 256; num_addresses = 6 };
  port_pool_end = 51820;
}

abbrev group : PeerGroup
group = record {
  id = 5;
  name = codes "l";
  worker_id = 2;
  lan_subnet = record { network_address = 512; num_addresses = 8 };
  lan_start_ip = 512;
  lan_gateway = none;
  parent_iface = none;
}

abbrev full_group : PeerGroup
full_group = record group { lan_subnet = record { network_address = 512; num_addresses = 1 } }

allocate_vm_ip-release_example :
    (remote_worker.ip_pool_start ≤ 261)
    × (261 < broadcast_address pool)
    × (any (λ g. g.worker_id == 2 && g.vm_ip == 261) installed.gateways ≡ false)
    × (any (is_vm_ip_row 2 261) installed.ip_allocations ≡ false)
    × ((j : ℕ)
        → remote_worker.ip_pool_start ≤ j
        → j < 261
        → (any (λ g. g.worker_id == 2 && g.vm_ip == j) installed.gateways
            || any (is_vm_ip_row 2 j) installed.ip_allocations)
          ≡ true)
    × (release_vm_ip 2 261 with_ip ≡ installed)
unfolding allocate_vm_ip find_from
allocate_vm_ip-release_example = allocate_vm_ip-release remote_worker installed with_ip 261 refl

allocate_vm_ip_fails_example :
    (value_error no_vm_ip ≡ value_error no_vm_ip)
    × (installed ≡ installed)
    × (broadcast_address full_worker.ip_pool_network - full_worker.ip_pool_start
        ≤ length (used_vm_ips full_worker installed))
unfolding allocate_vm_ip find_from
allocate_vm_ip_fails_example =
    allocate_vm_ip_fails full_worker installed installed (value_error no_vm_ip) refl

allocate_lan_ip-first_free_example :
    (in_network 513 group.lan_subnet ≡ true)
    × (512 ≤ 513)
    × (contains (group_lan_ips 5 installed.gateways) 513 ≡ false)
    × ((j : ℕ) → 512 ≤ j → j < 513 → contains (group_lan_ips 5 installed.gateways) j ≡ true)
    × (installed ≡ installed)
unfolding allocate_lan_ip find_from
allocate_lan_ip-first_free_example = allocate_lan_ip-first_free group installed 513 installed refl

capacity-allocate_lan_ip_example :
    (ip : ℕ) × (allocate_lan_ip group installed ≡ (ok ip, installed))
    × (ip ≤ last_host group.lan_subnet)
unfolding remaining_lan_capacity
capacity-allocate_lan_ip_example = capacity-allocate_lan_ip group installed 5 refl (omega arith)

allocate_wg_subnet-overlap_example :
    let a = (allocate_wg_subnet 10 1).subnet in
    let b = (allocate_wg_subnet 10 2).subnet in
    ((1 % 253 ≡ 2 % 253) ↔ (a ≡ b))
    × ((ip : ℕ) → 1 % 253 ≢ 2 % 253 → in_network ip a ≡ true → in_network ip b ≡ false)
allocate_wg_subnet-overlap_example = allocate_wg_subnet-overlap 10 1 2

abbrev wg : Network
wg = record { network_address = 4096; num_addresses = 256 }

allocate_peer_ip_example :
    ((ip : ℕ) × (db' : Database) × (allocate_peer_ip (gateway_row GatewayStatus.ready) installed
        ≡ (ok ip, db'))
      × IsPeerIp (gateway_row GatewayStatus.ready) wg installed db' ip)
    ⊎ ((allocate_peer_ip (gateway_row GatewayStatus.ready) installed
          ≡ (err (value_error no_peer_ip), installed))
        × (any (is_spare 3 (peer_ips 3 installed.peers)) installed.ip_allocations ≡ false)
        × ((host : ℕ)
            → first_host wg ≤ host
            → host ≤ last_host wg
            → host ≢ 4097
            → IsTaken (gateway_row GatewayStatus.ready) wg installed host))
allocate_peer_ip_example = allocate_peer_ip_lem (gateway_row GatewayStatus.ready) wg installed refl
