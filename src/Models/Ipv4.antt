-- ===== src/Models/Ipv4.antt =====
-- IPv4 networks as Python's `ipaddress` computes with them: an address is a number below 2 ^ 32.
use deep_orc.Prelude.{leb, if◌then◌else◌, nat_eq, text_eq, ℕ, ◌+◌, ◌-◌, ◌%◌, ◌^◌, Bool, ◌&&◌}

pub record Network : Type 0 where
  pub network_address : ℕ
  pub num_addresses : ℕ  -- 2 ^ (32 - prefix length)

-- `network.broadcast_address`
abbrev pub broadcast_address : Network → ℕ
broadcast_address n = n.network_address + n.num_addresses - 1

-- `address in network`
abbrev pub in_network : ℕ → Network → Bool
in_network a n = leb n.network_address a && leb a (broadcast_address n)

-- `network.hosts()` is the range from the first to the last host. A /31 has both its addresses
-- as hosts, and a /32 its only one.
abbrev pub first_host : Network → ℕ
first_host n = if leb n.num_addresses 2 then n.network_address else n.network_address + 1

abbrev pub last_host : Network → ℕ
last_host n = if leb n.num_addresses 2 then broadcast_address n else broadcast_address n - 1

-- `ip_network(f"{host}/{prefix}", strict=False)`, for a prefix length of at most 32
abbrev pub network_of : ℕ → ℕ → Network
network_of host prefix =
    let size = 2 ^ (32 - prefix) in
    record { network_address = host - host % size; num_addresses = size }
