-- ===== src/Lan.antt =====
-- orchestrator/lan/ipam.py: the LAN addresses of the gateways of a peer group.
pub mod Laws
pub mod Capacity
use deep_orc.Prelude.{
  ltb, leb, if◌then◌else◌, nat_eq, length, select, contains, find_from, text_eq, ℕ, ◌+◌, ◌-◌, ◌%◌,
  ◌^◌, max, Bool, Option, none, some, List, [], ◌∷◌,
}
use deep_orc.Models.Ipv4.{Network, broadcast_address, in_network, first_host, last_host, network_of}
use deep_orc.Models.{
  no_lan_ip, bad_subnet, bad_start_ip, address_overflow, Failure, value_error, Gateway, PeerGroup,
}
use deep_orc.Effects.{Result, ok, err, pure, gets, lift_result, ◌>>=◌, ◌>>◌}
use deep_orc.Database.{
  gateway_keyed, job_keyed, peer_keyed, group_keyed, worker_keyed, enrollment_keyed,
  registration_keyed, is_just, Query,
}

abbrev pub address_limit : ℕ
address_limit = 2 ^ 32

unfoldable pub infer_lan_subnet : ℕ → ℕ → Network
infer_lan_subnet start_ip prefix = network_of start_ip prefix

-- `network_address + 254` raises where it passes the last IPv4 address.
unfoldable pub default_lan_gateway : Network → Result ℕ
default_lan_gateway subnet =
    let candidate = subnet.network_address + 254 in
    if leb address_limit candidate
    then err (value_error address_overflow)
    else if in_network candidate subnet
    then ok candidate
    else if ltb (last_host subnet) (first_host subnet)
    then err (value_error bad_subnet)
    else ok (last_host subnet)

unfoldable pub validate_lan_start_ip : Network → ℕ → Result (Unit {0})
validate_lan_start_ip subnet start_ip =
    if in_network start_ip subnet then ok tt else err (value_error bad_start_ip)

-- The last octet.
unfoldable pub macvlan_slot_from_ip : ℕ → ℕ
macvlan_slot_from_ip lan_ip = lan_ip % 256

abbrev pub in_group : ℕ → Gateway → Bool
in_group group_id g = is_just g.peer_group_id group_id

-- The column of the group's gateways, without its NULLs.
abbrev pub group_lan_ips : ℕ → List Gateway → List ℕ
group_lan_ips group_id [] = []
group_lan_ips group_id (g ∷ gs) =
    let rest = group_lan_ips group_id gs in
    if in_group group_id g then elim g.lan_ip [ none ↦ rest | some ip ↦ ip ∷ rest ] else rest

-- The address after the last one of the network exists unless the network ends the IPv4 range.
abbrev pub lan_exhausted_error : Network → Failure
lan_exhausted_error n =
    if leb address_limit (broadcast_address n + 1)
    then value_error address_overflow
    else value_error no_lan_ip

abbrev pub found_or : {A : Type 0} → Failure → Option A → Query A
found_or e none db = (err e, db)
found_or e (some a) db = (ok a, db)

-- The loop walks up from the start address while the address is in the network.
unfoldable pub allocate_lan_ip : PeerGroup → Query ℕ
unfolding validate_lan_start_ip ◌>>=◌
allocate_lan_ip group = do
  lift_result (validate_lan_start_ip group.lan_subnet group.lan_start_ip)
  used ← gets (λ db. group_lan_ips group.id db.gateways)
  let start = group.lan_start_ip
  let count = broadcast_address group.lan_subnet + 1 - start
  found_or (lan_exhausted_error group.lan_subnet) (find_from (contains used) count start)

unfoldable pub remaining_lan_capacity : PeerGroup → Query ℕ
unfolding validate_lan_start_ip ◌>>=◌
remaining_lan_capacity group = do
  lift_result (validate_lan_start_ip group.lan_subnet group.lan_start_ip)
  used ← gets (λ db. length (select (in_group group.id) db.gateways))
  let total = last_host group.lan_subnet + 1 - max (first_host group.lan_subnet) group.lan_start_ip
  pure (total - used)
