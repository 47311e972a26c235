-- ===== src/Jobs.antt =====
-- orchestrator/workers: the background work on gateways, its queue and its threads.
pub mod Settled
pub mod Provisioning
pub mod Deletion
pub mod Resume
use deep_orc.Prelude.{
  ltb, if◌then◌else◌, ◌==◌, nat_eq, select, contains, text_eq, ℕ, ◌-◌, Bool, true, false, not, ◌&&◌,
  List, ◌∷◌,
}
use deep_orc.Models.{Job}
use deep_orc.Database.{
  gateway_keyed, job_keyed, peer_keyed, group_keyed, worker_keyed, enrollment_keyed,
  registration_keyed,
}
use deep_orc.Database.Jobs.{is_running}

abbrev pub stale_job_seconds : ℕ
stale_job_seconds = 600

-- `_is_stale_running_job`: more than ten minutes since the job was last written. A time in the future
-- is not stale.
unfoldable pub is_stale_running_job : ℕ → Job → Bool
is_stale_running_job now j = is_running j.status && ltb stale_job_seconds (now - j.updated_at)

-- `start_provisioning` and `start_deletion`: the set of gateways that a thread works for, and whether
-- a thread is started.
unfoldable pub start_thread : ℕ → List ℕ → List ℕ × Bool
start_thread gateway_id active =
    if contains active gateway_id then (active, false) else (gateway_id ∷ active, true)

-- `_active.discard`, when the thread ends
unfoldable pub discard : ℕ → List ℕ → List ℕ
discard gateway_id active = select (λ k. not (k == gateway_id)) active
