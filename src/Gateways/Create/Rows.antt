-- ===== src/Gateways/Create/Rows.antt =====
-- The rows that `create_gateway` writes.
use deep_orc.Prelude.{
  Bool-cases, ◌==◌, nat_eq, any, contains, text_beq_iff, text_eq, ℕ, ◌≡◌, refl, ◌⊎◌, inl, inr, true,
  false, ◌&&◌, some, List, [], ◌∷◌, ◌++◌, arith,
}
use deep_orc.Models.{JobType, JobStatus, integrity_error, Gateway, Job}
use deep_orc.Tables.{update, keys}
use deep_orc.Effects.{ok, err, err_ne_ok, ok_value}
use deep_orc.Database.{
  Database, gateway_keyed, job_keyed, peer_keyed, group_keyed, worker_keyed, enrollment_keyed,
  registration_keyed,
}
use deep_orc.Wg.{allocate_wg_subnet}
use deep_orc.Database.Gateways.{clashes}
use deep_orc.Platform.{Platform, Settings, new_key_fresh}
use deep_orc.Gateways.Create.{new_job, store_gateway}

-- What the tables hold after a gateway was stored: its row, PENDING and with the subnet of its key,
-- behind the rows there were, and one PENDING job that creates it.
pub record IsStored {W : Type 0} (p : Platform W) (config : Settings) (row : ℕ → Gateway)
    (before after : Database) (gateway_id job_id : ℕ) : Type 0 where
  pub gateways :
      after.gateways
      ≡ before.gateways
        ++ record (row gateway_id) {
          wg_subnet = some (allocate_wg_subnet config.wg_subnet_base gateway_id).subnet;
        }
          ∷ []
  pub new_name : any (λ g. g.name == (row gateway_id).name) before.gateways ≡ false
  pub new_port :
      any
        (λ g. g.worker_id == (row gateway_id).worker_id && g.udp_port == (row gateway_id).udp_port)
        before.gateways
      ≡ false
  pub new_id : contains (keys before.gateways) gateway_id ≡ false
  pub job :
      (j : Job) × (after.jobs ≡ before.jobs ++ j ∷ [])
      × (j.id ≡ job_id)
      × (j.gateway_id ≡ some gateway_id)
      × (j.status ≡ JobStatus.pending)
      × (j.type ≡ JobType.create_gateway)

no_clash_parts :
    (row : Gateway) (rows : List Gateway)
    → any (clashes row) rows ≡ false
    → (any (λ g. g.name == row.name) rows ≡ false)
      × (any (λ g. g.worker_id == row.worker_id && g.udp_port == row.udp_port) rows ≡ false)
no_clash_parts row [] h = (refl, refl)
no_clash_parts row (r ∷ rows) h =
    ground
      (arith, no_clash_parts row rows, text_beq_iff row.name r.name, text_beq_iff r.name row.name)

-- A row added last is the one that an update of its key changes.
update-snoc :
    (k : ℕ) (f : Gateway → Gateway) (rows : List Gateway) (a : Gateway)
    → contains (keys rows) k ≡ false
    → a.id ≡ k
    → update k f (rows ++ a ∷ []) ≡ rows ++ f a ∷ []
update-snoc k f [] a n e = ground arith
update-snoc k f (r ∷ rows) a n e = ground (arith, update-snoc k f rows a)

module _ {W : Type 0} (p : Platform W) (config : Settings) where
  abbrev with_subnet : ℕ → Gateway → Gateway
  with_subnet k g = record g {
    wg_subnet = some (allocate_wg_subnet config.wg_subnet_base k).subnet;
  }

  module _ (row : ℕ → Gateway) (now : ℕ) (db : Database) (at_id : (k : ℕ) → (row k).id ≡ k) where
    abbrev stored_id : ℕ
    stored_id = p.new_key (keys db.gateways)

    abbrev stored_job : Job
    stored_job = new_job p config JobType.create_gateway stored_id now (p.new_key (keys db.jobs))

    abbrev stored_db : Database
    stored_db = record db {
      gateways = db.gateways ++ with_subnet stored_id (row stored_id) ∷ [];
      jobs = db.jobs ++ stored_job ∷ [];
    }

    pub store_gateway-cases :
        ((any (clashes (row stored_id)) db.gateways ≡ true)
          × (store_gateway p config row now db ≡ (err integrity_error, db)))
        ⊎ ((any (clashes (row stored_id)) db.gateways ≡ false)
            × (store_gateway p config row now db ≡ (ok (stored_id, stored_job.id), stored_db)))
    unfolding store_gateway
    store_gateway-cases = elim (Bool-cases (any (clashes (row stored_id)) db.gateways)) [
      | inl clash ↦ inl (clash, rw clash)
      | inr fits ↦ inr (
        fits,
        rw (
          fits,
          update-snoc stored_id (with_subnet stored_id) db.gateways (row stored_id)
              (new_key_fresh p (keys db.gateways)) (at_id stored_id),
        ),
      )
    ]

    added_lem :
        any (clashes (row stored_id)) db.gateways ≡ false
        → IsStored p config row db stored_db stored_id stored_job.id
    added_lem fits = record {
      gateways = refl;
      new_name = (no_clash_parts (row stored_id) db.gateways fits).0;
      new_port = (no_clash_parts (row stored_id) db.gateways fits).1;
      new_id = new_key_fresh p (keys db.gateways);
      job = (stored_job, refl, refl, refl, refl, refl);
    }

    -- A gateway is stored as the record says, whenever the call returns.
    pub store_gateway-IsStored :
        (ids : ℕ × ℕ)
        → (store_gateway p config row now db).0 ≡ ok ids
        → IsStored p config row db (store_gateway p config row now db).1 ids.0 ids.1
    store_gateway-IsStored ids h = elim store_gateway-cases [
      | inl (_, e) ↦ absurd (err_ne_ok (rw e at h))
      | inr (fits, e) ↦
          let same : (stored_id, stored_job.id) ≡ ids = ok_value (rw e at h) in
          rw (e, ← same) (added_lem fits)
    ]
