-- ===== src/Pools/UdpPort.antt =====
-- The pool of UDP ports.
use deep_orc.Prelude.{
  Option-cases, ◌==◌, nat_eq, length, any, select, contains, contains-append, find_from,
  IsFirstFree, find_from-IsFirstFree, find_from-none, covered_length, text_eq, ℕ, ◌+◌, ◌-◌, ◌≤◌,
  ◌<◌, ◌≡◌, refl, sym, ap, ◌∙◌, subst, ◌⊎◌, inl, inr, true, false, ◌&&◌, Option, List, [], ◌∷◌,
  ◌++◌, map, arith,
}
use deep_orc.Models.{no_udp_port, Failure, value_error, Gateway, PortAllocation, Worker}
use deep_orc.Effects.{ok, err, ok_parts, ok_ne_err}
use deep_orc.Database.{
  Database, gateway_keyed, job_keyed, peer_keyed, group_keyed, worker_keyed, enrollment_keyed,
  registration_keyed,
}
use deep_orc.Pools.{same_port, used_ports, allocate_udp_port, is_port_row, release_udp_port}
use deep_orc.Pools.Constraints.{remove_first-snoc}

same_port_comm : (a b : PortAllocation) → same_port a b ≡ same_port b a
same_port_comm a b = ground arith

-- A port that the worker's allocations do not list breaks no constraint.
unlisted_port :
    (worker_id port : ℕ) (gateway_id : Option ℕ) (rows : List PortAllocation)
    → contains (map (λ a. a.udp_port) (select (λ a. a.worker_id == worker_id) rows)) port ≡ false
    → (any
          (same_port (record { worker_id = worker_id; udp_port = port; gateway_id = gateway_id }))
          rows
        ≡ false)
      × (any (is_port_row worker_id port) rows ≡ false)
unlisted_port w x g [] h = (refl, refl)
unlisted_port w x g (r ∷ rows) h = ground (arith, unlisted_port w x g rows)

pub unlisted_gateway_port :
    (worker_id port : ℕ) (rows : List Gateway)
    → contains (map (λ g. g.udp_port) (select (λ g. g.worker_id == worker_id) rows)) port ≡ false
    → any (λ g. g.worker_id == worker_id && g.udp_port == port) rows ≡ false
unlisted_gateway_port w x [] h = refl
unlisted_gateway_port w x (r ∷ rows) h = ground (arith, unlisted_gateway_port w x rows)

module _ (worker : Worker) (owner : Option ℕ) (db : Database) where
  abbrev port_count : ℕ
  port_count = worker.port_pool_end + 1 - worker.port_pool_start

  abbrev port_row : ℕ → PortAllocation
  port_row port = record { worker_id = worker.id; udp_port = port; gateway_id = owner }

  abbrev gateway_ports : List ℕ
  gateway_ports = map (λ g. g.udp_port) (select (λ g. g.worker_id == worker.id) db.gateways)

  abbrev allocated_ports : List ℕ
  allocated_ports =
      map (λ a. a.udp_port) (select (λ a. a.worker_id == worker.id) db.port_allocations)

  unused_ports :
      (port : ℕ)
      → contains (used_ports worker db) port ≡ false
      → (contains gateway_ports port ≡ false) × (contains allocated_ports port ≡ false)
  unused_ports port h = ground (arith, contains-append gateway_ports allocated_ports port)

  -- What a call does, by whether the pool has a free port.
  pub allocate_udp_port-cases :
      ((port : ℕ) × IsFirstFree
          (contains (used_ports worker db))
          port_count
          worker.port_pool_start
          port
        × (allocate_udp_port worker owner db ≡ (
          ok port,
          record db { port_allocations = db.port_allocations ++ port_row port ∷ [] },
        )))
      ⊎ ((allocate_udp_port worker owner db ≡ (err (value_error no_udp_port), db))
          × ((port : ℕ)
              → worker.port_pool_start ≤ port
              → port < worker.port_pool_start + port_count
              → contains (used_ports worker db) port ≡ true))
  unfolding allocate_udp_port
  allocate_udp_port-cases =
      elim (Option-cases
        (find_from (contains (used_ports worker db)) port_count worker.port_pool_start)) [
          | inl e ↦ inr (
            rw e,
            λ port lo hi.
                find_from-none (contains (used_ports worker db)) port_count worker.port_pool_start
                  port e lo hi,
          )
          | inr (port, e) ↦
              let f =
                find_from-IsFirstFree (contains (used_ports worker db)) port_count
                  worker.port_pool_start port e in
              inl (
                port,
                f,
                rw (
                  e,
                  (unlisted_port worker.id port owner db.port_allocations
                      (unused_ports port f.free).1).0,
                ),
              )
        ]

  pub allocated_udp_port :
      (port : ℕ) (db' : Database)
      → allocate_udp_port worker owner db ≡ (ok port, db')
      → IsFirstFree (contains (used_ports worker db)) port_count worker.port_pool_start port
        × (db' ≡ record db { port_allocations = db.port_allocations ++ port_row port ∷ [] })
  allocated_udp_port port db' h = elim allocate_udp_port-cases [
    | inl (i, f, e) ↦
        let (same, rest) = ok_parts (sym e ∙ h) in
        subst
          (λ (j : ℕ).
            IsFirstFree (contains (used_ports worker db)) port_count worker.port_pool_start j
            × (db' ≡ record db { port_allocations = db.port_allocations ++ port_row j ∷ [] }))
          same (f, sym rest)
    | inr (e, _) ↦ absurd (ok_ne_err (sym h ∙ e))
  ]

  release_port_row :
      (port : ℕ)
      → contains (used_ports worker db) port ≡ false
      → release_udp_port worker.id port
          (record db { port_allocations = db.port_allocations ++ port_row port ∷ [] })
        ≡ db
  unfolding release_udp_port
  release_port_row port h = rw (
      remove_first-snoc (is_port_row worker.id port) db.port_allocations (port_row port)
        (unlisted_port worker.id port owner db.port_allocations (unused_ports port h).1).1
        (ground arith))

-- A port that was allocated is in the worker's pool, every port of the pool below it is in use, no
-- gateway of the worker has it, and releasing it gives back the database as it was.
pub allocate_udp_port-release :
    (worker : Worker) (owner : Option ℕ) (db db' : Database) (port : ℕ)
    → allocate_udp_port worker owner db ≡ (ok port, db')
    → (worker.port_pool_start ≤ port)
      × (port ≤ worker.port_pool_end)
      × ((j : ℕ) → worker.port_pool_start ≤ j → j < port → contains (used_ports worker db) j ≡ true)
      × (any (λ g. g.worker_id == worker.id && g.udp_port == port) db'.gateways ≡ false)
      × (release_udp_port worker.id port db' ≡ db)
allocate_udp_port-release worker owner db db' port h =
    let (f, e) = allocated_udp_port worker owner db port db' h in
    (
      f.above,
      omega (arith, f.above, f.below),
      f.least,
      rw e (
          unlisted_gateway_port worker.id port db.gateways
            (unused_ports worker owner db port f.free).0),
      rw e (release_port_row worker owner db port f.free),
    )

-- A call that fails has found at least as many ports in use as the pool has, and changes nothing;
-- it never fails by a constraint of the database.
pub allocate_udp_port_fails :
    (worker : Worker) (owner : Option ℕ) (db db' : Database) (e : Failure)
    → allocate_udp_port worker owner db ≡ (err e, db')
    → (e ≡ value_error no_udp_port)
      × (db' ≡ db)
      × (worker.port_pool_end + 1 - worker.port_pool_start ≤ length (used_ports worker db))
allocate_udp_port_fails worker owner db db' e h = elim (allocate_udp_port-cases worker owner db) [
  | inl (i, f, r) ↦ absurd (ok_ne_err (sym r ∙ h))
  | inr (r, full) ↦ (
    cc (sym r ∙ h),
    ap (λ q. q.1) (sym h ∙ r),
    covered_length (used_ports worker db) (port_count worker owner db) worker.port_pool_start full,
  )
]
