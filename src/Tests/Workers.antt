-- ===== src/Tests/Workers.antt =====
-- The enrollment of workers.
use deep_orc.Prelude.{nat_eq, codes, text_eq, strip, ◌≡◌, refl, none, [], ◌∷◌}
use deep_orc.Models.{token_used, value_error, WorkerEnrollment}
use deep_orc.Effects.{err, ◌>>=◌}
use deep_orc.Database.{
  gateway_keyed, job_keyed, peer_keyed, group_keyed, worker_keyed, enrollment_keyed,
  registration_keyed,
}
use deep_orc.Database.Enrollments.{get_by_token_hash}
use deep_orc.Session.{State, query, read_world, commit, write_at}
use deep_orc.Workers.Registration.{RegisterWorkerResult, store_worker}
use deep_orc.Workers.Enrollment.{
  CompleteEnrollmentRequest, enrolled_worker, add_remote, finish_enrollment, complete_enrollment,
}
use deep_orc.Workers.Enrollment.Laws.{IsOpen, IsEnrolled, complete_enrollment-IsEnrolled}
use deep_orc.Workers.Enrollment.Once.{complete_enrollment_once}
use deep_orc.Tests.Sample.{World, platform, settings, database, session}

abbrev invitation : WorkerEnrollment
invitation = record {
  id = 9;
  token_hash = codes "x";
  name = codes "v";
  display_name = codes "v";
  public_ip = codes "p";
  tailscale_hostname = codes "v";
  expires_at = 2000;
  enroll_token_enc = none;
  headscale_auth_key_enc = none;
  used_at = none;
  worker_id = none;
  created_at = 1;
}

abbrev invited : State World
invited = session (record (database [] []) { enrollments = invitation ∷ [] })

abbrev details : CompleteEnrollmentRequest
details = record {
  tailscale_hostname = codes "v";
  tailscale_ip = codes "i";
  incus_trust_token = codes "z";
  public_ip = codes "p";
}

abbrev worker_added : RegisterWorkerResult
worker_added = record {
  worker =
      enrolled_worker platform settings invitation details
        (record { cert_path = codes "c"; key_path = codes "k"; server_cert_path = codes "s" })
        (codes "t") 3;
  worker_token = codes "t";
}

complete_enrollment-IsEnrolled_example :
    (e : WorkerEnrollment) × IsOpen platform settings (codes "x") details 1000 invited.db e
    × IsEnrolled platform settings e details invited.db.workers invited.db.enrollments
        worker_added.worker
        (complete_enrollment platform settings (codes "x") details invited).1.db
        (complete_enrollment platform settings (codes "x") details invited).1.saved
unfolding complete_enrollment ◌>>=◌ query get_by_token_hash read_world finish_enrollment add_remote
    strip store_worker write_at commit
complete_enrollment-IsEnrolled_example =
    complete_enrollment-IsEnrolled platform settings (codes "x") details invited worker_added refl

complete_enrollment_once_example :
    complete_enrollment platform settings
      (codes "x")
      details
      (complete_enrollment platform settings (codes "x") details invited).1
    ≡ (
      err (value_error token_used),
      (complete_enrollment platform settings (codes "x") details invited).1,
    )
unfolding complete_enrollment ◌>>=◌ query get_by_token_hash read_world finish_enrollment add_remote
    strip store_worker write_at commit
complete_enrollment_once_example =
    complete_enrollment_once platform settings (codes "x") details details invited
      (complete_enrollment platform settings (codes "x") details invited).1 worker_added refl refl
