-- ===== src/Wg/Subnets.antt =====
-- Which gateways share a WireGuard subnet.
use deep_orc.Prelude.{
  nat_eq, text_eq, ℕ, ◌+◌, ◌-◌, ◌*◌, ◌%◌, ◌≤◌, ◌<◌, ◌≡◌, ap, ◌≢◌, ◌↔◌, true, false, arith,
}
use deep_orc.Models.Ipv4.{Network, broadcast_address, in_network, first_host, last_host}
use deep_orc.Database.{
  gateway_keyed, job_keyed, peer_keyed, group_keyed, worker_keyed, enrollment_keyed,
  registration_keyed,
}
use deep_orc.Wg.{allocate_wg_subnet}

-- Two gateways have one subnet exactly when their ids agree modulo 253; otherwise no address is in
-- both subnets.
pub allocate_wg_subnet-overlap :
    (base i j : ℕ)
    → let a = (allocate_wg_subnet base i).subnet in
      let b = (allocate_wg_subnet base j).subnet in
      ((i % 253 ≡ j % 253) ↔ (a ≡ b))
      × ((ip : ℕ) → i % 253 ≢ j % 253 → in_network ip a ≡ true → in_network ip b ≡ false)
unfolding allocate_wg_subnet
allocate_wg_subnet-overlap base i j = (
  (λ e. rw e, λ e. omega (arith, ap (λ (n : Network). n.network_address) e)),
  λ ip n h. ground arith,
)

-- The gateway's address is a host of its subnet, and the subnet lies within the base network.
pub allocate_wg_subnet_bounds :
    (base i : ℕ)
    → let s = allocate_wg_subnet base i in
      (first_host s.subnet ≤ s.gateway_ip)
      × (s.gateway_ip ≤ last_host s.subnet)
      × (base * 65536 + 256 ≤ s.subnet.network_address)
      × (broadcast_address s.subnet < base * 65536 + 65536 - 512)
unfolding allocate_wg_subnet
allocate_wg_subnet_bounds base i = ground arith
