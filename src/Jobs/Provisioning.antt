-- ===== src/Jobs/Provisioning.antt =====
-- orchestrator/workers/provisioning.py
pub mod Laws
use deep_orc.Prelude.{
  if◌then◌else◌, nat_eq, text_eq, ℕ, ◌+◌, not, Option, none, some, List, [], ◌∷◌, ◌++◌,
}
use deep_orc.Models.{GatewayStatus, JobStatus, Failure, Message, Gateway, Job}
use deep_orc.Effects.{pure, ◌>>=◌, ◌>>◌, try_except}
use deep_orc.Database.{
  Database, gateway_keyed, job_keyed, peer_keyed, group_keyed, worker_keyed, enrollment_keyed,
  registration_keyed,
}
use deep_orc.Database.Gateways.{get_gateway, update_gateway_status}
use deep_orc.Database.Jobs.{is_pending, get_job, update_job_status, get_pending_for_gateway}
use deep_orc.Platform.{Platform, Settings}
use deep_orc.Session.{Action, ask, read_world, commit, rollback, write, write_at}
use deep_orc.Stages.{stage_queued, stage_preparing, stage_done, set_provision_stage}
use deep_orc.Gateways.{needs_provisioning}
use deep_orc.Gateways.Lifecycle.{prepare_provisioning}
use deep_orc.Gateways.Provision.{Polls, provision_gateway}
use deep_orc.Jobs.{is_stale_running_job}

module _ {W : Type 0} (p : Platform W) (polls : Polls) where
  -- The failure of a job, if the job and its gateway are still there.
  abbrev pub fail_both : ℕ → ℕ → Failure → Option Job → Option Gateway → Action W (Unit {0})
  fail_both job_id gateway_id e none g = pure tt
  fail_both job_id gateway_id e (some j) none = pure tt
  fail_both job_id gateway_id e (some j) (some g) = do
    write (update_gateway_status gateway_id GatewayStatus.error (some (Message.failure e)))
    write_at p.now (λ now. update_job_status now job_id JobStatus.failed (some (Message.failure e)))
    commit

  unfoldable pub fail_provisioning : ℕ → ℕ → Failure → Action W (Unit {0})
  fail_provisioning job_id gateway_id e = do
    rollback
    j ← ask (get_job job_id)
    g ← ask (get_gateway gateway_id)
    fail_both job_id gateway_id e j g

  unfoldable pub complete_provisioning : ℕ → Action W (Unit {0})
  complete_provisioning job_id = do
    write_at p.now (λ now. update_job_status now job_id JobStatus.completed none)
    set_provision_stage p job_id stage_done
    commit

  unfoldable pub run_job : ℕ → ℕ → Action W (Unit {0})
  run_job job_id gateway_id =
      try_except
        (provision_gateway p polls gateway_id (some job_id) >> complete_provisioning job_id) pure
        (fail_provisioning job_id gateway_id)

  abbrev pub process_found : ℕ → ℕ → Option Job → Option Gateway → Action W (Unit {0})
  process_found job_id gateway_id none g = pure tt
  process_found job_id gateway_id (some j) none = pure tt
  process_found job_id gateway_id (some j) (some g) = do
    write_at p.now (λ now. update_job_status now job_id JobStatus.running none)
    set_provision_stage p job_id stage_preparing
    commit
    run_job job_id gateway_id

  unfoldable pub process_provisioning_job : ℕ → ℕ → Action W (Unit {0})
  process_provisioning_job job_id gateway_id = do
    j ← ask (get_job job_id)
    g ← ask (get_gateway gateway_id)
    process_found job_id gateway_id j g

  -- `drain_queue`: the jobs in the order in which they were put in.
  abbrev pub drain_queue : List (ℕ × ℕ) → Action W ℕ
  drain_queue [] = pure 0
  drain_queue ((job_id, gateway_id) ∷ pending) = do
    process_provisioning_job job_id gateway_id
    processed ← drain_queue pending
    pure (processed + 1)

  abbrev pub queue_and_process : ℕ → Option Job → Action W (Unit {0})
  queue_and_process gateway_id none = pure tt
  queue_and_process gateway_id (some j) = do
    set_provision_stage p j.id stage_queued
    commit
    process_provisioning_job j.id gateway_id

  abbrev pub named_job : Option ℕ → ℕ → Database → Option Job
  named_job none gateway_id db = get_pending_for_gateway gateway_id db
  named_job (some job_id) gateway_id db = get_job job_id db

  module _ (config : Settings) where
    abbrev pub prepare_and_process : ℕ → Action W (Unit {0})
    prepare_and_process gateway_id = do
      prepare_provisioning p config gateway_id
      j ← ask (get_pending_for_gateway gateway_id)
      queue_and_process gateway_id j

    -- A new job, a stale one and a pending one are run; any other is left alone.
    abbrev pub run_named : ℕ → ℕ → Option Job → Action W (Unit {0})
    run_named gateway_id now none = prepare_and_process gateway_id
    run_named gateway_id now (some j) =
        if is_stale_running_job now j
        then prepare_and_process gateway_id
        else if is_pending j.status
        then queue_and_process gateway_id (some j)
        else pure tt

    abbrev pub run_needed : ℕ → Option ℕ → Option Gateway → Action W (Unit {0})
    run_needed gateway_id job_id none = pure tt
    run_needed gateway_id job_id (some g) =
        if not (needs_provisioning g.status) then pure tt else (do
          j ← ask (named_job job_id gateway_id)
          now ← read_world p.now
          run_named gateway_id now j)

    -- `_run_gateway_provisioning_once`
    unfoldable pub run_gateway_provisioning_once : ℕ → Option ℕ → Action W (Unit {0})
    run_gateway_provisioning_once gateway_id job_id = do
      g ← ask (get_gateway gateway_id)
      run_needed gateway_id job_id g

-- `ProvisioningQueue`
unfoldable pub enqueue : ℕ → ℕ → List (ℕ × ℕ) → List (ℕ × ℕ)
enqueue job_id gateway_id pending = pending ++ (job_id, gateway_id) ∷ []

unfoldable pub pop : List (ℕ × ℕ) → Option (ℕ × ℕ) × List (ℕ × ℕ)
pop [] = (none, [])
pop (item ∷ pending) = (some item, pending)
