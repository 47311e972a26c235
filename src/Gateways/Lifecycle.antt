-- ===== src/Gateways/Lifecycle.antt =====
-- `GatewayService`: the requests that change a gateway's state before a background worker runs.
pub mod Laws
pub mod Prepare
use deep_orc.Prelude.{
  if◌then◌else◌, nat_eq, text_eq, ℕ, Bool, false, ◌&&◌, ◌||◌, Option, none, some,
}
use deep_orc.Models.{GatewayStatus, JobType, JobStatus, gateway_not_found, Gateway, Job, Worker}
use deep_orc.Effects.{ok, pure, require, ◌>>=◌, ◌>>◌}
use deep_orc.Database.{
  Database, gateway_keyed, job_keyed, peer_keyed, group_keyed, worker_keyed, enrollment_keyed,
  registration_keyed, Query,
}
use deep_orc.Database.Gateways.{
  is_deleting, is_error, is_provisioning, get_gateway, update_gateway_status,
}
use deep_orc.Database.Jobs.{
  is_pending, is_running, is_failed, create_job_row, get_latest_create_job, get_latest_delete_job,
  reset_failed_job,
}
use deep_orc.Platform.{Platform, Settings}
use deep_orc.Session.{Action, query, ask, read_world, commit, write, write_at}
use deep_orc.Workers.{get_worker}
use deep_orc.Gateways.Create.{new_job, fresh_job_id, create_gateway}

-- `_resolve_worker`
abbrev pub worker_of : Gateway → Query Worker
worker_of g db = (get_worker g.worker_id db, db)

abbrev pub latest_create_failed : ℕ → Database → Bool
latest_create_failed gateway_id db = elim (get_latest_create_job gateway_id db) [
  | none ↦ false
  | some j ↦ is_failed j.status
]

-- A gateway in error, or whose provisioning failed, is PENDING again.
unfoldable pub reopen_gateway : ℕ → Gateway → Database → Database
reopen_gateway gateway_id g db =
    if is_error g.status || (is_provisioning g.status && latest_create_failed gateway_id db)
    then update_gateway_status gateway_id GatewayStatus.pending none db
    else db

abbrev pub is_open : JobStatus → Bool
is_open status = is_pending status || is_running status

-- The delete job of a gateway that is being deleted already.
abbrev pub deletion_under_way : Gateway → Option Job → Option ℕ
deletion_under_way g none = none
deletion_under_way g (some j) = if is_deleting g.status && is_open j.status then some j.id else none

module _ {W : Type 0} (p : Platform W) (config : Settings) where
  abbrev pub add_job : JobType → ℕ → ℕ → Database → Database
  add_job type gateway_id now db =
      create_job_row (new_job p config type gateway_id now (fresh_job_id p config db)) db

  abbrev pub ensured_job : ℕ → ℕ → Option Job × Database → Database
  ensured_job gateway_id now (none, db) = add_job JobType.create_gateway gateway_id now db
  ensured_job gateway_id now (some j, db) = db

  abbrev pub renew_create_job : ℕ → ℕ → Database → Database
  renew_create_job gateway_id now db =
      ensured_job gateway_id now (reset_failed_job now gateway_id db)

  unfoldable pub prepare_provisioning : ℕ → Action W (Unit {0})
  unfolding reopen_gateway create_job_row reset_failed_job
  prepare_provisioning gateway_id = do
    g ← query (λ db. require gateway_not_found (get_gateway gateway_id db) db)
    write (reopen_gateway gateway_id g)
    write_at p.now (renew_create_job gateway_id)
    commit

  -- The job that deletes the gateway: one that is pending, or a new one.
  abbrev pub new_delete_job : ℕ → ℕ → Query ℕ
  new_delete_job gateway_id now db =
      let id = fresh_job_id p config db in
      (ok id, create_job_row (new_job p config JobType.delete_gateway gateway_id now id) db)

  abbrev pub reused_job : ℕ → ℕ → Option Job → Query ℕ
  reused_job gateway_id now none = new_delete_job gateway_id now
  reused_job gateway_id now (some j) =
      if is_pending j.status then pure j.id else new_delete_job gateway_id now

  abbrev pub start_delete : ℕ → ℕ → Option Job → Action W ℕ
  start_delete gateway_id now existing = do
    write (update_gateway_status gateway_id GatewayStatus.deleting none)
    id ← query (reused_job gateway_id now existing)
    commit
    pure id

  abbrev pub kept_or_start : ℕ → ℕ → Option Job → Option ℕ → Action W ℕ
  kept_or_start gateway_id now existing none = start_delete gateway_id now existing
  kept_or_start gateway_id now existing (some id) = pure id

  unfoldable pub request_delete_gateway : ℕ → Action W ℕ
  unfolding create_job_row ◌>>=◌
  request_delete_gateway gateway_id = do
    g ← query (λ db. require gateway_not_found (get_gateway gateway_id db) db)
    existing ← ask (get_latest_delete_job gateway_id)
    now ← read_world p.now
    kept_or_start gateway_id now existing (deletion_under_way g existing)
