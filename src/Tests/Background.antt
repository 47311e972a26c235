-- ===== src/Tests/Background.antt =====
-- The background work.
use deep_orc.Prelude.{nat_eq, text_eq, ◌≡◌, refl, true, [], ◌∷◌}
use deep_orc.Models.{GatewayStatus, JobType, JobStatus}
use deep_orc.Effects.{ok, ◌>>=◌}
use deep_orc.Database.{
  gateway_keyed, job_keyed, peer_keyed, group_keyed, worker_keyed, enrollment_keyed,
  registration_keyed,
}
use deep_orc.Database.Gateways.{update_gateway_status}
use deep_orc.Database.Jobs.{get_pending_for_gateway, get_latest_create_job}
use deep_orc.Session.{State, query, ask, commit, write, write_at}
use deep_orc.Agent.RuleLog.{words_eq}
use deep_orc.Gateways.{needs_provisioning}
use deep_orc.Gateways.Lifecycle.{prepare_provisioning}
use deep_orc.Jobs.Settled.{IsSettled, HasEnded}
use deep_orc.Gateways.Provision.{Polls}
use deep_orc.Jobs.Provisioning.{process_provisioning_job}
use deep_orc.Jobs.Deletion.{process_deletion_job}
use deep_orc.Jobs.Provisioning.Laws.{process_provisioning_job-HasEnded}
use deep_orc.Jobs.Deletion.Laws.{process_deletion_job-IsSettled}
use deep_orc.Jobs.Resume.{resume_incomplete_provisioning}
use deep_orc.Jobs.Resume.Laws.{all_idle, resume_incomplete_provisioning-idle}
use deep_orc.Tests.Sample.{World, platform, settings, gateway_row, job_row, database, session}

abbrev created : State World
created = session (
    database (gateway_row GatewayStatus.pending ∷ [])
      (job_row JobType.create_gateway JobStatus.pending ∷ []))

abbrev condemned : State World
condemned = session (
    database (gateway_row GatewayStatus.deleting ∷ [])
      (job_row JobType.delete_gateway JobStatus.pending ∷ []))

abbrev two_polls : Polls
two_polls = record { cloud_init = 2; agent = 2 }

process_provisioning_job-HasEnded_example :
    ((process_provisioning_job platform two_polls 7 3 created).0 ≡ ok tt)
    × HasEnded 7
        (process_provisioning_job platform two_polls 7 3 created).1.db
        (process_provisioning_job platform two_polls 7 3 created).1.saved
process_provisioning_job-HasEnded_example =
    process_provisioning_job-HasEnded platform two_polls 7 3 created
      (job_row JobType.create_gateway JobStatus.pending) (gateway_row GatewayStatus.pending) refl
      refl

process_deletion_job-IsSettled_example :
    ((process_deletion_job platform 7 3 condemned).0 ≡ ok tt)
    × IsSettled 7
        (process_deletion_job platform 7 3 condemned).1.db
        (process_deletion_job platform 7 3 condemned).1.saved
process_deletion_job-IsSettled_example =
    process_deletion_job-IsSettled platform 7 3 condemned
      (job_row JobType.delete_gateway JobStatus.pending) refl

abbrev two_failed : State World
two_failed = session (
    database
      (gateway_row GatewayStatus.error ∷ record (gateway_row GatewayStatus.error) { id = 4 } ∷ [])
      [])

resume_incomplete_provisioning-idle_example : all_idle (3 ∷ []) ((4, 1) ∷ []) ≡ true
unfolding resume_incomplete_provisioning ◌>>=◌ ask needs_provisioning get_latest_create_job
    prepare_provisioning query write write_at commit get_pending_for_gateway update_gateway_status
resume_incomplete_provisioning-idle_example =
    resume_incomplete_provisioning-idle platform settings (3 ∷ []) two_failed ((4, 1) ∷ []) refl
