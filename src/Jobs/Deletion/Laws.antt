-- ===== src/Jobs/Deletion/Laws.antt =====
-- How a deletion job ends.
use deep_orc.Prelude.{
  Bool-cases, Option-cases, nat_eq, text_eq, ℕ, ◌≡◌, refl, inl, inr, none, some, arith,
}
use deep_orc.Models.{JobStatus, Failure, Message, Job}
use deep_orc.Effects.{Result, ok, err, pure, ◌>>=◌, handle, try_except}
use deep_orc.Database.{
  Database, gateway_keyed, job_keyed, peer_keyed, group_keyed, worker_keyed, enrollment_keyed,
  registration_keyed,
}
use deep_orc.Database.Gateways.{get_gateway, update_gateway_status}
use deep_orc.Database.Jobs.{get_job}
use deep_orc.Platform.{Platform}
use deep_orc.Session.{State, ask, commit, rollback, write_at}
use deep_orc.Gateways.Delete.{
  delete_rows, complete_job, is_unfinished, finish_job, execute_delete_gateway,
}
use deep_orc.Gateways.Delete.Laws.{execute_delete_gateway-Ends}
use deep_orc.Jobs.Settled.{update_job_status-settled, IsSettled}
use deep_orc.Jobs.Deletion.{fail_deletion, run_deletion, process_deletion_job}

module _ {W : Type 0} (p : Platform W) (job_id gateway_id : ℕ) where
  completed-IsSettled :
      (now : ℕ) (db : Database)
      → IsSettled job_id (complete_job p (some job_id) now db) (complete_job p (some job_id) now db)
  completed-IsSettled now db = record {
    idle = update_job_status-settled job_id now JobStatus.completed none db refl;
    all_saved = refl;
  }

  finish_job-IsSettled :
      (s : State W)
      → s.saved ≡ s.db
      → ((finish_job p (some job_id) s).0 ≡ ok tt)
        × IsSettled job_id
            (finish_job p (some job_id) s).1.db
            (finish_job p (some job_id) s).1.saved
  unfolding finish_job ask write_at commit ◌>>=◌
  finish_job-IsSettled s e = elim (Bool-cases (is_unfinished p (get_job job_id s.db))) [
    | inl unfinished ↦ rw unfinished (refl, completed-IsSettled (p.now s.world) s.db)
    | inr finished ↦ rw finished (refl, record { idle = ground arith; all_saved = e })
  ]

  execute-missing :
      (s : State W)
      → get_gateway gateway_id s.db ≡ none
      → execute_delete_gateway p gateway_id (some job_id) s ≡ finish_job p (some job_id) s
  unfolding execute_delete_gateway ask ◌>>=◌
  execute-missing s missing = rw missing

  execute-IsSettled :
      (s : State W)
      → s.saved ≡ s.db
      → (execute_delete_gateway p gateway_id (some job_id) s).0 ≡ ok tt
      → IsSettled job_id
          (execute_delete_gateway p gateway_id (some job_id) s).1.db
          (execute_delete_gateway p gateway_id (some job_id) s).1.saved
  execute-IsSettled s e h = elim (Option-cases (get_gateway gateway_id s.db)) [
    | inl missing ↦ rw (execute-missing s missing) (finish_job-IsSettled s e).1
    | inr (g, found) ↦
        let (now, d, f) = execute_delete_gateway-Ends p gateway_id (some job_id) s g found h in
        rw (d, f) (completed-IsSettled now (delete_rows p gateway_id g s.db))
  ]

  fail_deletion-IsSettled :
      (e : Failure) (s : State W)
      → ((fail_deletion p job_id gateway_id e s).0 ≡ ok tt)
        × IsSettled job_id
            (fail_deletion p job_id gateway_id e s).1.db
            (fail_deletion p job_id gateway_id e s).1.saved
  unfolding fail_deletion rollback write_at commit update_gateway_status ◌>>=◌
  fail_deletion-IsSettled e s = (
    refl,
    record {
      idle =
          update_job_status-settled job_id (p.now s.world) JobStatus.failed
            (some (Message.failure e)) s.saved refl;
      all_saved = refl;
    },
  )

  settle :
      (r : Result (Unit {0})) (s : State W)
      → (r ≡ ok tt → IsSettled job_id s.db s.saved)
      → ((handle r pure (fail_deletion p job_id gateway_id) s).0 ≡ ok tt)
        × IsSettled job_id
            (handle r pure (fail_deletion p job_id gateway_id) s).1.db
            (handle r pure (fail_deletion p job_id gateway_id) s).1.saved
  unfolding pure
  settle (ok tt) s k = (refl, k refl)
  settle (err e) s k = fail_deletion-IsSettled e s

  run_deletion-IsSettled :
      (s : State W)
      → s.saved ≡ s.db
      → ((run_deletion p job_id gateway_id s).0 ≡ ok tt)
        × IsSettled job_id
            (run_deletion p job_id gateway_id s).1.db
            (run_deletion p job_id gateway_id s).1.saved
  unfolding run_deletion try_except
  run_deletion-IsSettled s e =
      let r : Result (Unit {0}) × State W = execute_delete_gateway p gateway_id (some job_id) s in
      settle r.0 r.1 (execute-IsSettled s e)

  -- A deletion job that exists is processed without an exception, whatever the outside world does;
  -- afterwards it is not RUNNING, if it is there at all, and all that was written is committed.
  pub process_deletion_job-IsSettled :
      (s : State W) (j : Job)
      → get_job job_id s.db ≡ some j
      → ((process_deletion_job p job_id gateway_id s).0 ≡ ok tt)
        × IsSettled job_id
            (process_deletion_job p job_id gateway_id s).1.db
            (process_deletion_job p job_id gateway_id s).1.saved
  unfolding process_deletion_job ask write_at commit ◌>>=◌
  process_deletion_job-IsSettled s j found = rw found (run_deletion-IsSettled _ refl)
