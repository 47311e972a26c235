-- ===== src/Wg/PeerIp.antt =====
-- The addresses of WireGuard peers.
use deep_orc.Prelude.{
  nat_beq_iff, Option-cases, ◌==◌, nat_eq, any, first, any-append, contains, contains-append,
  find_from, IsFirstFree, find_from-IsFirstFree, find_from-none, text_eq, ℕ, ◌+◌, ◌-◌, ◌≤◌, ◌≡◌,
  refl, sym, ◌∙◌, ◌≢◌, ◌⊎◌, inl, inr, Bool, true, false, ◌||◌, none, some, List, [], ◌∷◌, ◌++◌, map,
  arith,
}
use deep_orc.Models.Ipv4.{Network, first_host, last_host}
use deep_orc.Models.{no_peer_ip, value_error, Gateway, IpAllocation}
use deep_orc.Effects.{ok, err}
use deep_orc.Database.{
  Database, gateway_keyed, job_keyed, peer_keyed, group_keyed, worker_keyed, enrollment_keyed,
  registration_keyed,
}
use deep_orc.Pools.{same_ip}
use deep_orc.Wg.{
  peer_ips, is_spare, peer_ip_row, taken_host, new_peer_ip, allocate_peer_ip, is_peer_ip_row,
}

first-spare :
    (gateway_id : ℕ) (used : List ℕ) (rows : List IpAllocation) (a : IpAllocation)
    → first (is_spare gateway_id used) rows ≡ some a
    → (any (is_peer_ip_row gateway_id a.address) rows ≡ true) × (contains used a.address ≡ false)
first-spare g used [] a h = cc
first-spare g used (r ∷ rows) a h =
    ground (arith, first-spare g used rows a, nat_beq_iff a.address a.address)

-- A search that finds nothing has nothing to find.
first-none :
    (p : IpAllocation → Bool) (rows : List IpAllocation) → first p rows ≡ none → any p rows ≡ false
first-none p [] h = refl
first-none p (r ∷ rows) h = ground (arith, first-none p rows)

listed_address :
    (ip : ℕ) (rows : List IpAllocation)
    → contains (map (λ a. a.address) rows) ip ≡ any (λ a. a.address == ip) rows
listed_address ip [] = refl
listed_address ip (r ∷ rows) = ground (arith, listed_address ip rows)

unlisted_address :
    (gateway : Gateway) (ip : ℕ) (rows : List IpAllocation)
    → contains (map (λ a. a.address) rows) ip ≡ false
    → any (same_ip (peer_ip_row gateway ip)) rows ≡ false
unlisted_address gateway ip [] h = refl
unlisted_address gateway ip (r ∷ rows) h = ground (arith, unlisted_address gateway ip rows)

-- An address that `allocate_peer_ip` gives a gateway.
pub record IsPeerIp (gateway : Gateway) (subnet : Network) (before after : Database) (ip : ℕ)
    : Type 0 where
  pub not_in_use : contains (peer_ips gateway.id before.peers) ip ≡ false
  pub recorded : any (is_peer_ip_row gateway.id ip) after.ip_allocations ≡ true
  pub spare_or_host :
      (after ≡ before)
      ⊎ ((contains (map (λ a. a.address) before.ip_allocations) ip ≡ false)
          × (first_host subnet ≤ ip)
          × (ip ≤ last_host subnet)
          × (ip ≢ subnet.network_address + 1)
          × (after ≡ record before {
            ip_allocations = before.ip_allocations ++ peer_ip_row gateway ip ∷ [];
          }))

module _ (gateway : Gateway) (subnet : Network) (db : Database) where
  abbrev peer_used : List ℕ
  peer_used = peer_ips gateway.id db.peers ++ map (λ a. a.address) db.ip_allocations

  abbrev host_count : ℕ
  host_count = last_host subnet + 1 - first_host subnet

  -- A peer of the gateway has the address, or an allocation of any gateway.
  abbrev pub IsTaken : ℕ → Type 0
  IsTaken host =
      (contains (peer_ips gateway.id db.peers) host
        || any (λ a. a.address == host) db.ip_allocations)
      ≡ true

  peer_used-IsTaken : (host : ℕ) → contains peer_used host ≡ true → IsTaken host
  peer_used-IsTaken host h = rw (← listed_address host db.ip_allocations) (
      sym (
        contains-append (peer_ips gateway.id db.peers)
          (map (λ (a : IpAllocation). a.address) db.ip_allocations) host)
      ∙ h)

  not_own :
      (host : ℕ)
      → host ≢ subnet.network_address + 1
      → taken_host subnet peer_used host ≡ true
      → contains peer_used host ≡ true
  not_own host other h = ground (arith, nat_beq_iff host (subnet.network_address + 1))

  new_peer_ip-cases :
      ((ip : ℕ) × IsFirstFree (taken_host subnet peer_used) host_count (first_host subnet) ip
        × (new_peer_ip gateway subnet db ≡ (
          ok ip,
          record db { ip_allocations = db.ip_allocations ++ peer_ip_row gateway ip ∷ [] },
        )))
      ⊎ ((new_peer_ip gateway subnet db ≡ (err (value_error no_peer_ip), db))
          × ((host : ℕ)
              → first_host subnet ≤ host
              → host ≤ last_host subnet
              → host ≢ subnet.network_address + 1
              → IsTaken host))
  unfolding new_peer_ip
  new_peer_ip-cases =
      elim (Option-cases (find_from (taken_host subnet peer_used) host_count (first_host subnet))) [
        | inl e ↦ inr (
          rw e,
          λ host lo hi other. peer_used-IsTaken host (
              not_own host other (
                find_from-none (taken_host subnet peer_used) host_count (first_host subnet) host e
                  lo (omega arith))),
        )
        | inr (ip, e) ↦
            let f =
              find_from-IsFirstFree (taken_host subnet peer_used) host_count (first_host subnet) ip
                e in
            let free : contains (map (λ (a : IpAllocation). a.address) db.ip_allocations) ip
                ≡ false =
              ground (
                arith,
                f.free,
                contains-append (peer_ips gateway.id db.peers)
                    (map (λ (a : IpAllocation). a.address) db.ip_allocations) ip,
              ) in
            inl (ip, f, rw (e, unlisted_address gateway ip db.ip_allocations free))
      ]

  new_peer_ip_lem :
      (ip : ℕ)
      → IsFirstFree (taken_host subnet peer_used) host_count (first_host subnet) ip
      → IsPeerIp gateway subnet db
          (record db { ip_allocations = db.ip_allocations ++ peer_ip_row gateway ip ∷ [] })
          ip
  new_peer_ip_lem ip f = record {
    not_in_use = ground (
      arith,
      f.free,
      contains-append (peer_ips gateway.id db.peers)
          (map (λ (a : IpAllocation). a.address) db.ip_allocations) ip,
    );
    recorded =
        rw
          (any-append (is_peer_ip_row gateway.id ip) db.ip_allocations
            (peer_ip_row gateway ip ∷ []))
          (ground arith);
    spare_or_host = inr (
      ground (
        arith,
        f.free,
        contains-append (peer_ips gateway.id db.peers)
            (map (λ (a : IpAllocation). a.address) db.ip_allocations) ip,
      ),
      f.above,
      omega (arith, f.above, f.below),
      ground (arith, f.free),
      refl,
    );
  }

  -- A gateway with a subnet gets an address that no peer of it uses, and the allocation is
  -- recorded: a spare one of the gateway, or a new one, which is a host of the subnet other than
  -- the gateway's and which no allocation had. Otherwise the call fails and writes nothing, and this
  -- is exhaustion: no allocation is a spare one, and every host of the subnet but the gateway's is
  -- the address of a peer of the gateway or of an allocation.
  pub allocate_peer_ip_lem :
      gateway.wg_subnet ≡ some subnet
      → ((ip : ℕ) × (db' : Database) × (allocate_peer_ip gateway db ≡ (ok ip, db'))
          × IsPeerIp gateway subnet db db' ip)
        ⊎ ((allocate_peer_ip gateway db ≡ (err (value_error no_peer_ip), db))
            × (any (is_spare gateway.id (peer_ips gateway.id db.peers)) db.ip_allocations ≡ false)
            × ((host : ℕ)
                → first_host subnet ≤ host
                → host ≤ last_host subnet
                → host ≢ subnet.network_address + 1
                → IsTaken host))
  unfolding allocate_peer_ip
  allocate_peer_ip_lem has =
      elim (Option-cases
        (first (is_spare gateway.id (peer_ips gateway.id db.peers)) db.ip_allocations)) [
          | inr (a, e) ↦
              let (row, unused) =
                first-spare gateway.id (peer_ips gateway.id db.peers) db.ip_allocations a e in
              inl (
                a.address,
                db,
                rw (has, e),
                record { not_in_use = unused; recorded = row; spare_or_host = inl refl },
              )
          | inl e ↦ elim new_peer_ip-cases [
            | inl (ip, f, r) ↦ inl (ip, _, rw (has, e) r, new_peer_ip_lem ip f)
            | inr (r, full) ↦ inr (
              rw (has, e) r,
              first-none (is_spare gateway.id (peer_ips gateway.id db.peers)) db.ip_allocations e,
              full,
            )
          ]
        ]
