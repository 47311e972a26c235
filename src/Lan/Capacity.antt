-- ===== src/Lan/Capacity.antt =====
-- The capacity that a group reports is a promise of the allocator.
use deep_orc.Prelude.{
  Bool-cases, Option-cases, nat_eq, length, first, select, contains, find_from,
  find_from-IsFirstFree, find_from-none, find_from_room, text_eq, ℕ, ◌+◌, ◌-◌, ◌≤◌, ◌<◌, max, ◌≡◌,
  sym, inl, inr, Bool, false, some, List, [], ◌∷◌, arith,
}
use deep_orc.Models.Ipv4.{broadcast_address, in_network, first_host, last_host}
use deep_orc.Models.{Gateway, PeerGroup}
use deep_orc.Effects.{ok, ok_parts, ok_ne_err}
use deep_orc.Database.{
  Database, gateway_keyed, job_keyed, peer_keyed, group_keyed, worker_keyed, enrollment_keyed,
  registration_keyed,
}
use deep_orc.Lan.{in_group, group_lan_ips, allocate_lan_ip, remaining_lan_capacity}

length-group_lan_ips :
    (group_id : ℕ) (gs : List Gateway)
    → length (group_lan_ips group_id gs) ≤ length (select (in_group group_id) gs)
length-group_lan_ips group_id [] = omega arith
length-group_lan_ips group_id (g ∷ gs) = ground (arith, length-group_lan_ips group_id gs)

-- A free number in a part of a range bounds what a search of the range finds.
find_from_at_most :
    (taken : ℕ → Bool) (n i k : ℕ)
    → taken k ≡ false
    → i ≤ k
    → k < i + n
    → (j : ℕ) × (find_from taken n i ≡ some j) × (j ≤ k)
find_from_at_most taken n i k free lo hi = elim (Option-cases (find_from taken n i)) [
  | inl e ↦ absurd (cc (find_from-none taken n i k e lo hi, free))
  | inr (j, e) ↦ (j, e, ground (arith, (find_from-IsFirstFree taken n i j e).least k lo))
]

-- While a group reports capacity, an address can be handed out, and it is at most the last host
-- of the subnet, so it is not the broadcast address.
pub capacity-allocate_lan_ip :
    (group : PeerGroup) (db : Database) (n : ℕ)
    → remaining_lan_capacity group db ≡ (ok n, db)
    → 0 < n
    → (ip : ℕ) × (allocate_lan_ip group db ≡ (ok ip, db)) × (ip ≤ last_host group.lan_subnet)
unfolding remaining_lan_capacity allocate_lan_ip
capacity-allocate_lan_ip group db n h pos =
    elim (Bool-cases (in_network group.lan_start_ip group.lan_subnet)) [
      | inr outside ↦ absurd (ok_ne_err (sym (rw outside at h)))
      | inl inside ↦
          let lo = max (first_host group.lan_subnet) group.lan_start_ip in
          let total = last_host group.lan_subnet + 1 - lo in
          let lan_ips = group_lan_ips group.id db.gateways in
          let (e, _) = ok_parts (rw inside at h) in
          let room : length lan_ips < total =
            omega (arith, length-group_lan_ips group.id db.gateways, e) in
          let (k, found) =
            find_from_room (λ j. j) lan_ips total lo (λ i j a b c s. omega arith) room in
          let f = find_from-IsFirstFree (contains lan_ips) total lo k found in
          let (ip, first, most) =
            find_from_at_most (contains lan_ips)
              (broadcast_address group.lan_subnet + 1 - group.lan_start_ip) group.lan_start_ip k
              f.free (omega (arith, f.above)) (ground (arith, f.above, f.below)) in
          (ip, rw (inside, first), omega (arith, f.above, f.below, most))
    ]
