-- ===== src/Jobs/Provisioning/Laws.antt =====
-- How a provisioning job ends.
use deep_orc.Prelude.{
  Option-cases, nat_eq, contains, text_eq, ℕ, ◌≡◌, refl, ◌∙◌, inl, inr, true, none, some, List, [],
  ◌∷◌, arith,
}
use deep_orc.Models.{GatewayStatus, JobStatus, Failure, Message, Gateway, Job}
use deep_orc.Tables.{Keyed, get, keys, get-none-keys}
use deep_orc.Effects.{Result, ok, err, pure, after, ◌>>=◌, handle, try_except}
use deep_orc.Database.{
  Database, gateway_keyed, job_keyed, peer_keyed, group_keyed, worker_keyed, enrollment_keyed,
  registration_keyed,
}
use deep_orc.Database.Gateways.{get_gateway, update_gateway_status}
use deep_orc.Database.Jobs.{get_job, update_job_status, update_stage}
use deep_orc.Platform.{Platform}
use deep_orc.Session.{State, ask, commit, rollback, write, write_at}
use deep_orc.Stages.{stage_preparing, stage_done, set_provision_stage}
use deep_orc.Jobs.Settled.{HasEnded, update_stage-ended, update_job_status-ended}
use deep_orc.Gateways.Provision.{Polls, provision_gateway}
use deep_orc.Gateways.Provision.Rows.{
  HasRows, update_job_status-HasRows, update_stage-HasRows, provision_gateway-Stays,
}
use deep_orc.Jobs.Provisioning.{
  fail_provisioning, complete_provisioning, run_job, process_found, process_provisioning_job,
}

found-contains :
    {A : Type 0} ⦃t : Keyed A⦄ (k : ℕ) (rows : List A) (a : A)
    → get k rows ≡ some a
    → contains (keys rows) k ≡ true
found-contains k [] a h = cc
found-contains k (r ∷ rows) a h = ground (arith, found-contains k rows a)

contains-found :
    {A : Type 0} ⦃t : Keyed A⦄ (k : ℕ) (rows : List A)
    → contains (keys rows) k ≡ true
    → (a : A) × (get k rows ≡ some a)
contains-found k rows h = elim (Option-cases (get k rows)) [
  | inl missing ↦ absurd (cc (get-none-keys k rows missing))
  | inr found ↦ found
]

module _ {W : Type 0} (p : Platform W) (polls : Polls) (job_id gateway_id : ℕ) where
  -- The call returns, and the job has ended.
  Settles : Result (Unit {0}) × State W → Type 0
  Settles r = (r.0 ≡ ok tt) × HasEnded job_id r.1.db r.1.saved

  complete-Settles :
      (s : State W)
      → HasRows gateway_id job_id s.db
      → Settles (complete_provisioning p polls job_id s)
  unfolding Settles complete_provisioning write_at commit set_provision_stage ◌>>=◌
  complete-Settles s h =
      let now : ℕ = p.now s.world in
      let done : Database = update_job_status now job_id JobStatus.completed none s.db in
      (
        refl,
        record {
          ended =
              update_stage-ended job_id now job_id stage_done true done
              ∙ update_job_status-ended job_id now JobStatus.completed none s.db refl h.has_job;
          all_saved = refl;
        },
      )

  fail_provisioning-Settles :
      (e : Failure) (s : State W)
      → HasRows gateway_id job_id s.saved
      → Settles (fail_provisioning p polls job_id gateway_id e s)
  unfolding Settles fail_provisioning rollback ask write write_at commit update_gateway_status ◌>>=◌
  fail_provisioning-Settles e s h =
      let (j, has_job) = contains-found job_id s.saved.jobs h.has_job in
      let (g, has_gateway) = contains-found gateway_id s.saved.gateways h.has_gateway in
      rw (has_job, has_gateway)
        (
          refl,
          record {
            ended =
                update_job_status-ended job_id (p.now s.world) JobStatus.failed
                  (some (Message.failure e))
                  (update_gateway_status gateway_id GatewayStatus.error (some (Message.failure e))
                    s.saved)
                  refl h.has_job;
            all_saved = refl;
          },
        )

  after_provision :
      (r : Result (Unit {0})) (s : State W)
      → HasRows gateway_id job_id s.db
      → HasRows gateway_id job_id s.saved
      → (let m = after r (λ _. complete_provisioning p polls job_id) s in
          Settles (handle m.0 pure (fail_provisioning p polls job_id gateway_id) m.1))
  unfolding Settles complete_provisioning write_at commit set_provision_stage ◌>>=◌
  after_provision (ok u) s h k = complete-Settles s h
  after_provision (err e) s h k = fail_provisioning-Settles e s k

  run_job-Settles :
      (s : State W)
      → HasRows gateway_id job_id s.db
      → HasRows gateway_id job_id s.saved
      → Settles (run_job p polls job_id gateway_id s)
  unfolding run_job try_except ◌>>=◌
  run_job-Settles s h k =
      let r : Result (Unit {0}) × State W = provision_gateway p polls gateway_id (some job_id) s in
      let rows = (provision_gateway-Stays p polls gateway_id (some job_id)).at s h k in
      after_provision r.0 r.1 rows.0 rows.1

  -- The tables when the work begins.
  abbrev begun : ℕ → Database → Database
  begun now db =
      update_stage now job_id stage_preparing true
        (update_job_status now job_id JobStatus.running none db)

  begun-HasRows :
      (now : ℕ) (db : Database)
      → HasRows gateway_id job_id db
      → HasRows gateway_id job_id (begun now db)
  begun-HasRows now db h =
      update_stage-HasRows now job_id stage_preparing true
        (update_job_status now job_id JobStatus.running none db)
        (update_job_status-HasRows now job_id JobStatus.running none db h)

  process_found-begun :
      (s : State W) (j : Job) (g : Gateway)
      → process_found p polls job_id gateway_id (some j) (some g) s
        ≡ run_job p polls job_id gateway_id (record {
          db = begun (p.now s.world) s.db;
          saved = begun (p.now s.world) s.db;
          world = s.world;
        })
  unfolding write_at commit set_provision_stage ◌>>=◌
  process_found-begun s j g = refl

  -- A provisioning job whose gateway exists is processed without an exception, whatever the outside
  -- world does; afterwards it is COMPLETED or FAILED, and all that was written is committed.
  pub process_provisioning_job-HasEnded :
      (s : State W) (j : Job) (g : Gateway)
      → get_job job_id s.db ≡ some j
      → get_gateway gateway_id s.db ≡ some g
      → ((process_provisioning_job p polls job_id gateway_id s).0 ≡ ok tt)
        × HasEnded job_id
            (process_provisioning_job p polls job_id gateway_id s).1.db
            (process_provisioning_job p polls job_id gateway_id s).1.saved
  unfolding Settles process_provisioning_job ask ◌>>=◌
  process_provisioning_job-HasEnded s j g found known =
      let rows : HasRows gateway_id job_id s.db = record {
        has_gateway = found-contains gateway_id s.db.gateways g known;
        has_job = found-contains job_id s.db.jobs j found;
      } in
      let start : HasRows gateway_id job_id (begun (p.now s.world) s.db) =
        begun-HasRows (p.now s.world) s.db rows in
      rw (found, known, process_found-begun s j g) (run_job-Settles _ start start)
