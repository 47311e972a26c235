-- ===== src/Jobs/Deletion.antt =====
-- orchestrator/workers/deletion.py
pub mod Laws
use deep_orc.Prelude.{if◌then◌else◌, nat_eq, text_eq, ℕ, not, Option, none, some}
use deep_orc.Models.{GatewayStatus, JobStatus, Failure, Message, deletion_failed, Gateway, Job}
use deep_orc.Effects.{pure, ◌>>=◌, ◌>>◌, try_except}
use deep_orc.Database.{
  Database, gateway_keyed, job_keyed, peer_keyed, group_keyed, worker_keyed, enrollment_keyed,
  registration_keyed,
}
use deep_orc.Database.Gateways.{is_deleting, get_gateway, update_gateway_status}
use deep_orc.Database.Jobs.{get_job, update_job_status, get_latest_delete_job}
use deep_orc.Platform.{Platform}
use deep_orc.Session.{Action, ask, read_world, commit, rollback, write_at}
use deep_orc.Gateways.Lifecycle.{is_open}
use deep_orc.Gateways.Delete.{finish_job, execute_delete_gateway}
use deep_orc.Jobs.{is_stale_running_job}

module _ {W : Type 0} (p : Platform W) where
  -- The delete job, if it is still there, and the gateway, if it is, are marked.
  abbrev pub mark_failed : ℕ → ℕ → Failure → ℕ → Database → Database
  mark_failed job_id gateway_id e now db =
      update_gateway_status gateway_id GatewayStatus.error (some (deletion_failed e))
        (update_job_status now job_id JobStatus.failed (some (Message.failure e)) db)

  unfoldable pub fail_deletion : ℕ → ℕ → Failure → Action W (Unit {0})
  fail_deletion job_id gateway_id e = do
    rollback
    write_at p.now (mark_failed job_id gateway_id e)
    commit

  unfoldable pub run_deletion : ℕ → ℕ → Action W (Unit {0})
  run_deletion job_id gateway_id =
      try_except (execute_delete_gateway p gateway_id (some job_id)) pure
        (fail_deletion job_id gateway_id)

  abbrev pub process_delete : ℕ → ℕ → Option Job → Action W (Unit {0})
  process_delete job_id gateway_id none = pure tt
  process_delete job_id gateway_id (some j) = do
    write_at p.now (λ now. update_job_status now job_id JobStatus.running none)
    commit
    run_deletion job_id gateway_id

  unfoldable pub process_deletion_job : ℕ → ℕ → Action W (Unit {0})
  process_deletion_job job_id gateway_id = do
    j ← ask (get_job job_id)
    process_delete job_id gateway_id j

  abbrev pub named_delete_job : Option ℕ → ℕ → Database → Option Job
  named_delete_job none gateway_id db = get_latest_delete_job gateway_id db
  named_delete_job (some job_id) gateway_id db = get_job job_id db

  abbrev pub run_delete_job : ℕ → ℕ → Option Job → Action W (Unit {0})
  run_delete_job gateway_id now none = pure tt
  run_delete_job gateway_id now (some j) =
      if is_stale_running_job now j
      then (do
        write_at p.now (λ t. update_job_status t j.id JobStatus.pending none)
        commit
        process_deletion_job j.id gateway_id)
      else if is_open j.status
      then process_deletion_job j.id gateway_id
      else pure tt

  abbrev pub run_deleting : ℕ → Option ℕ → Option Gateway → Action W (Unit {0})
  run_deleting gateway_id job_id none = finish_job p job_id
  run_deleting gateway_id job_id (some g) = if not (is_deleting g.status) then pure tt else (do
    j ← ask (named_delete_job job_id gateway_id)
    now ← read_world p.now
    run_delete_job gateway_id now j)

  -- `_run_gateway_deletion_once`
  unfoldable pub run_gateway_deletion_once : ℕ → Option ℕ → Action W (Unit {0})
  run_gateway_deletion_once gateway_id job_id = do
    g ← ask (get_gateway gateway_id)
    run_deleting gateway_id job_id g
