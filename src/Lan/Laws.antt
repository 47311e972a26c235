-- ===== src/Lan/Laws.antt =====
-- Subnets and gateways that are inferred, and the addresses that a group hands out.
use native.Mathlib.Nat.{pow-suc, mod-lt}
use deep_orc.Prelude.{
  Bool-cases, Option-cases, nat_eq, contains, find_from, find_from-IsFirstFree, find_from-none,
  text_eq, ℕ, zero, suc, ◌+◌, ◌-◌, ◌%◌, ◌^◌, ◌≤◌, ◌<◌, ◌≡◌, sym, ap, subst, ◌⊎◌, inl, inr, Bool,
  true, false, arith,
}
use deep_orc.Models.Ipv4.{Network, broadcast_address, in_network}
use deep_orc.Models.{Failure, PeerGroup}
use deep_orc.Effects.{ok, err, ok_parts, ok_ne_err}
use deep_orc.Database.{
  Database, gateway_keyed, job_keyed, peer_keyed, group_keyed, worker_keyed, enrollment_keyed,
  registration_keyed,
}
use deep_orc.Lan.{
  infer_lan_subnet, default_lan_gateway, validate_lan_start_ip, group_lan_ips, allocate_lan_ip,
  remaining_lan_capacity,
}

pow_pos : (n : ℕ) → 0 < 2 ^ n
pow_pos zero = omega arith
pow_pos (suc n) = omega (arith, pow_pos n, pow-suc 2 n)

in_network_of :
    (ip size : ℕ)
    → 0 < size
    → in_network ip (record { network_address = ip - ip % size; num_addresses = size }) ≡ true
in_network_of ip size pos =
    let lo : ip - ip % size ≤ ip = omega arith in
    let hi : ip ≤ ip - ip % size + size - 1 = omega (arith, mod-lt ip pos) in ground arith

-- The inferred subnet holds the address it was inferred from, which its validation then accepts.
pub infer_lan_subnet-valid :
    (start_ip prefix : ℕ)
    → (in_network start_ip (infer_lan_subnet start_ip prefix) ≡ true)
      × (validate_lan_start_ip (infer_lan_subnet start_ip prefix) start_ip ≡ ok tt)
unfolding infer_lan_subnet validate_lan_start_ip
infer_lan_subnet-valid start_ip prefix =
    let i = in_network_of start_ip (2 ^ (32 - prefix)) (pow_pos (32 - prefix)) in (i, rw i)

-- The default gateway of a subnet is an address of it.
pub default_lan_gateway-in_network :
    (subnet : Network) (ip : ℕ)
    → 0 < subnet.num_addresses
    → default_lan_gateway subnet ≡ ok ip
    → in_network ip subnet ≡ true
unfolding default_lan_gateway
default_lan_gateway-in_network subnet ip pos h = ground arith

module _ (group : PeerGroup) (db : Database) where
  abbrev lan_used : ℕ → Bool
  lan_used = contains (group_lan_ips group.id db.gateways)

  abbrev walk : ℕ
  walk = broadcast_address group.lan_subnet + 1 - group.lan_start_ip

  -- An address that is handed out is the first one of the subnet, from the group's start address
  -- on, that no gateway of the group has; nothing is written.
  pub allocate_lan_ip-first_free :
      (ip : ℕ) (db' : Database)
      → allocate_lan_ip group db ≡ (ok ip, db')
      → (in_network ip group.lan_subnet ≡ true)
        × (group.lan_start_ip ≤ ip)
        × (lan_used ip ≡ false)
        × ((j : ℕ) → group.lan_start_ip ≤ j → j < ip → lan_used j ≡ true)
        × (db' ≡ db)
  unfolding allocate_lan_ip
  allocate_lan_ip-first_free ip db' h =
      elim (Bool-cases (in_network group.lan_start_ip group.lan_subnet)) [
        | inr outside ↦ absurd (ok_ne_err (sym (rw outside at h)))
        | inl inside ↦ elim (Option-cases (find_from lan_used walk group.lan_start_ip)) [
          | inl e ↦ absurd (ok_ne_err (sym (rw (inside, e) at h)))
          | inr (k, e) ↦
              let (same, rest) = ok_parts (rw (inside, e) at h) in
              let f = find_from-IsFirstFree lan_used walk group.lan_start_ip k e in
              subst
                (λ (i : ℕ).
                  (in_network i group.lan_subnet ≡ true)
                  × (group.lan_start_ip ≤ i)
                  × (lan_used i ≡ false)
                  × ((j : ℕ) → group.lan_start_ip ≤ j → j < i → lan_used j ≡ true)
                  × (db' ≡ db))
                same (ground (arith, f.above, f.below), f.above, f.free, f.least, sym rest)
        ]
      ]

  -- A start address outside the subnet is refused, and otherwise a call fails only when a gateway
  -- of the group has every address from the start on.
  pub allocate_lan_ip_fails :
      (e : Failure) (db' : Database)
      → allocate_lan_ip group db ≡ (err e, db')
      → (db' ≡ db)
        × ((in_network group.lan_start_ip group.lan_subnet ≡ false)
            ⊎ ((ip : ℕ)
                → in_network ip group.lan_subnet ≡ true
                → group.lan_start_ip ≤ ip
                → lan_used ip ≡ true))
  unfolding allocate_lan_ip
  allocate_lan_ip_fails e db' h =
      elim (Bool-cases (in_network group.lan_start_ip group.lan_subnet)) [
        | inr outside ↦ (sym (ap (λ r. r.1) (rw outside at h)), inl outside)
        | inl inside ↦ elim (Option-cases (find_from lan_used walk group.lan_start_ip)) [
          | inr (k, e) ↦ absurd (ok_ne_err (rw (inside, e) at h))
          | inl e ↦ (
            sym (ap (λ r. r.1) (rw (inside, e) at h)),
            inr λ ip i lo. find_from-none lan_used walk group.lan_start_ip ip e lo (ground arith),
          )
        ]
      ]

-- Neither the allocation nor the count writes anything, whatever it answers.
pub allocate_lan_ip-same : (group : PeerGroup) (db : Database) → (allocate_lan_ip group db).1 ≡ db
unfolding allocate_lan_ip
allocate_lan_ip-same group db = ground arith

pub remaining_lan_capacity-same :
    (group : PeerGroup) (db : Database) → (remaining_lan_capacity group db).1 ≡ db
unfolding remaining_lan_capacity
remaining_lan_capacity-same group db = ground arith
