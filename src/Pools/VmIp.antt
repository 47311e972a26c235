-- ===== src/Pools/VmIp.antt =====
-- The pool of VM addresses.
use deep_orc.Prelude.{
  Option-cases, ◌==◌, nat_eq, length, any, select, contains, contains-append, find_from,
  IsFirstFree, find_from-IsFirstFree, find_from-none, covered_length, text_eq, ℕ, ◌+◌, ◌-◌, ◌≤◌,
  ◌<◌, ◌≡◌, refl, sym, ap, ◌∙◌, subst, ◌⊎◌, inl, inr, true, false, ◌&&◌, ◌||◌, Option, none, List,
  [], ◌∷◌, ◌++◌, map, arith,
}
use deep_orc.Models.Ipv4.{broadcast_address}
use deep_orc.Models.{no_vm_ip, Failure, value_error, Gateway, IpAllocation, Worker}
use deep_orc.Effects.{ok, err, ok_parts, ok_ne_err}
use deep_orc.Database.{
  Database, gateway_keyed, job_keyed, peer_keyed, group_keyed, worker_keyed, enrollment_keyed,
  registration_keyed,
}
use deep_orc.Pools.{same_ip, used_vm_ips, allocate_vm_ip, is_vm_ip_row, release_vm_ip}
use deep_orc.Pools.Constraints.{IsUnique, IsUnique-snoc, remove_first-snoc}

pub same_ip_comm : (a b : IpAllocation) → same_ip a b ≡ same_ip b a
same_ip_comm a b = ground arith

-- An address that the worker's allocations do not list breaks no constraint.
pub unlisted_ip :
    (worker_id address : ℕ) (gateway_id peer_id : Option ℕ) (rows : List IpAllocation)
    → contains (map (λ a. a.address) (select (λ a. a.worker_id == worker_id) rows)) address ≡ false
    → any
        (same_ip (record {
          worker_id = worker_id;
          address = address;
          gateway_id = gateway_id;
          peer_id = peer_id;
        }))
        rows
      ≡ false
unlisted_ip w x g p [] h = refl
unlisted_ip w x g p (r ∷ rows) h = ground (arith, unlisted_ip w x g p rows)

unlisted_ip_row :
    (worker_id address : ℕ) (rows : List IpAllocation)
    → contains (map (λ a. a.address) (select (λ a. a.worker_id == worker_id) rows)) address ≡ false
    → any (is_vm_ip_row worker_id address) rows ≡ false
unlisted_ip_row w x [] h = refl
unlisted_ip_row w x (r ∷ rows) h = ground (arith, unlisted_ip_row w x rows)

-- No gateway of the worker has an address that is not listed.
unlisted_gateway :
    (worker_id address : ℕ) (rows : List Gateway)
    → contains (map (λ g. g.vm_ip) (select (λ g. g.worker_id == worker_id) rows)) address ≡ false
    → any (λ g. g.worker_id == worker_id && g.vm_ip == address) rows ≡ false
unlisted_gateway w x [] h = refl
unlisted_gateway w x (r ∷ rows) h = ground (arith, unlisted_gateway w x rows)

-- A listed address is that of a gateway or of an allocation of the worker.
listed_ip_row :
    (worker_id address : ℕ) (rows : List IpAllocation)
    → contains (map (λ a. a.address) (select (λ a. a.worker_id == worker_id) rows)) address
      ≡ any (is_vm_ip_row worker_id address) rows
listed_ip_row w x [] = refl
listed_ip_row w x (r ∷ rows) = ground (arith, listed_ip_row w x rows)

listed_gateway :
    (worker_id address : ℕ) (rows : List Gateway)
    → contains (map (λ g. g.vm_ip) (select (λ g. g.worker_id == worker_id) rows)) address
      ≡ any (λ g. g.worker_id == worker_id && g.vm_ip == address) rows
listed_gateway w x [] = refl
listed_gateway w x (r ∷ rows) = ground (arith, listed_gateway w x rows)

used_by_rows :
    (worker_id address : ℕ) (gateways : List Gateway) (rows : List IpAllocation)
    → contains
        (map (λ g. g.vm_ip) (select (λ g. g.worker_id == worker_id) gateways)
          ++ map (λ a. a.address) (select (λ a. a.worker_id == worker_id) rows))
        address
      ≡ true
    → (any (λ g. g.worker_id == worker_id && g.vm_ip == address) gateways
        || any (is_vm_ip_row worker_id address) rows)
      ≡ true
used_by_rows w x gateways rows h =
    rw (← listed_gateway w x gateways, ← listed_ip_row w x rows)
      (sym (
          contains-append (map (λ g. g.vm_ip) (select (λ g. g.worker_id == w) gateways))
            (map (λ a. a.address) (select (λ a. a.worker_id == w) rows)) x)
        ∙ h)

module _ (worker : Worker) (db : Database) where
  abbrev pool : ℕ
  pool = broadcast_address worker.ip_pool_network - worker.ip_pool_start

  abbrev new_row : ℕ → IpAllocation
  new_row ip = record { worker_id = worker.id; address = ip; gateway_id = none; peer_id = none }

  abbrev gateway_ips : List ℕ
  gateway_ips = map (λ g. g.vm_ip) (select (λ g. g.worker_id == worker.id) db.gateways)

  abbrev allocated_ips : List ℕ
  allocated_ips = map (λ a. a.address) (select (λ a. a.worker_id == worker.id) db.ip_allocations)

  unused_parts :
      (ip : ℕ)
      → contains (used_vm_ips worker db) ip ≡ false
      → (contains gateway_ips ip ≡ false) × (contains allocated_ips ip ≡ false)
  unused_parts ip h = ground (arith, contains-append gateway_ips allocated_ips ip)

  free_row :
      (ip : ℕ)
      → contains (used_vm_ips worker db) ip ≡ false
      → any (same_ip (new_row ip)) db.ip_allocations ≡ false
  free_row ip h = unlisted_ip worker.id ip none none db.ip_allocations (unused_parts ip h).1

  -- What a call does, by whether the pool has a free address.
  pub allocate_vm_ip-cases :
      ((ip : ℕ) × IsFirstFree (contains (used_vm_ips worker db)) pool worker.ip_pool_start ip
        × (allocate_vm_ip worker db
            ≡ (ok ip, record db { ip_allocations = db.ip_allocations ++ new_row ip ∷ [] })))
      ⊎ ((allocate_vm_ip worker db ≡ (err (value_error no_vm_ip), db))
          × ((ip : ℕ)
              → worker.ip_pool_start ≤ ip
              → ip < worker.ip_pool_start + pool
              → contains (used_vm_ips worker db) ip ≡ true))
  unfolding allocate_vm_ip
  allocate_vm_ip-cases =
      elim (Option-cases (find_from (contains (used_vm_ips worker db)) pool worker.ip_pool_start)) [
        | inl e ↦ inr (rw e, λ ip lo hi. find_from-none _ pool worker.ip_pool_start ip e lo hi)
        | inr (ip, e) ↦
            let f =
              find_from-IsFirstFree (contains (used_vm_ips worker db)) pool worker.ip_pool_start ip
                e in
            inl (ip, f, rw (e, free_row ip f.free))
      ]

module _ (worker : Worker) (db : Database) where
  pub allocated_vm_ip :
      (ip : ℕ) (db' : Database)
      → allocate_vm_ip worker db ≡ (ok ip, db')
      → IsFirstFree (contains (used_vm_ips worker db)) (pool worker db) worker.ip_pool_start ip
        × (db' ≡ record db { ip_allocations = db.ip_allocations ++ new_row worker db ip ∷ [] })
  allocated_vm_ip ip db' h = elim (allocate_vm_ip-cases worker db) [
    | inl (i, f, e) ↦
        let (same, rest) = ok_parts (sym e ∙ h) in
        subst
          (λ (j : ℕ).
            IsFirstFree (contains (used_vm_ips worker db)) (pool worker db) worker.ip_pool_start j
            × (db' ≡ record db { ip_allocations = db.ip_allocations ++ new_row worker db j ∷ [] }))
          same (f, sym rest)
    | inr (e, _) ↦ absurd (ok_ne_err (sym h ∙ e))
  ]

  release_new_row :
      (ip : ℕ)
      → contains (used_vm_ips worker db) ip ≡ false
      → release_vm_ip worker.id ip
          (record db { ip_allocations = db.ip_allocations ++ new_row worker db ip ∷ [] })
        ≡ db
  unfolding release_vm_ip
  release_new_row ip h = rw (
      remove_first-snoc (is_vm_ip_row worker.id ip) db.ip_allocations (new_row worker db ip)
        (unlisted_ip_row worker.id ip db.ip_allocations (unused_parts worker db ip h).1)
        (ground arith))

-- An address that was allocated lies from the start of the worker's pool on and below the broadcast
-- address of its network, whether or not the pool starts in the network. No gateway and no
-- allocation of this worker had it, and it is the first such one of the pool. Releasing it gives
-- back the database as it was.
pub allocate_vm_ip-release :
    (worker : Worker) (db db' : Database) (ip : ℕ)
    → allocate_vm_ip worker db ≡ (ok ip, db')
    → (worker.ip_pool_start ≤ ip)
      × (ip < broadcast_address worker.ip_pool_network)
      × (any (λ g. g.worker_id == worker.id && g.vm_ip == ip) db.gateways ≡ false)
      × (any (is_vm_ip_row worker.id ip) db.ip_allocations ≡ false)
      × ((j : ℕ)
          → worker.ip_pool_start ≤ j
          → j < ip
          → (any (λ g. g.worker_id == worker.id && g.vm_ip == j) db.gateways
              || any (is_vm_ip_row worker.id j) db.ip_allocations)
            ≡ true)
      × (release_vm_ip worker.id ip db' ≡ db)
allocate_vm_ip-release worker db db' ip h =
    let (f, e) = allocated_vm_ip worker db ip db' h in
    (
      f.above,
      omega (arith, f.above, f.below),
      unlisted_gateway worker.id ip db.gateways (unused_parts worker db ip f.free).0,
      unlisted_ip_row worker.id ip db.ip_allocations (unused_parts worker db ip f.free).1,
      λ j lo hi. used_by_rows worker.id j db.gateways db.ip_allocations (f.least j lo hi),
      rw e (release_new_row worker db ip f.free),
    )

-- The call fails only by the pool's exhaustion, never by a constraint, and then changes nothing;
-- it cannot fail while fewer addresses are in use than the pool has.
pub allocate_vm_ip_fails :
    (worker : Worker) (db db' : Database) (e : Failure)
    → allocate_vm_ip worker db ≡ (err e, db')
    → (e ≡ value_error no_vm_ip)
      × (db' ≡ db)
      × (broadcast_address worker.ip_pool_network - worker.ip_pool_start
          ≤ length (used_vm_ips worker db))
allocate_vm_ip_fails worker db db' e h = elim (allocate_vm_ip-cases worker db) [
  | inl (i, f, r) ↦ absurd (ok_ne_err (sym r ∙ h))
  | inr (r, full) ↦ (
    cc (sym r ∙ h),
    ap (λ q. q.1) (sym h ∙ r),
    covered_length (used_vm_ips worker db) (pool worker db) worker.ip_pool_start full,
  )
]

-- No two allocations of a worker have one address, before as after a call.
pub allocate_vm_ip-IsUnique :
    (worker : Worker) (db : Database)
    → IsUnique same_ip db.ip_allocations
    → IsUnique same_ip (allocate_vm_ip worker db).1.ip_allocations
allocate_vm_ip-IsUnique worker db u = elim (allocate_vm_ip-cases worker db) [
  | inl (i, f, r) ↦ rw r (
      IsUnique-snoc same_ip same_ip_comm db.ip_allocations (new_row worker db i) u
        (free_row worker db i f.free))
  | inr (r, _) ↦ rw r u
]
