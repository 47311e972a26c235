-- ===== src/Gateways/Lifecycle/Prepare.antt =====
-- What `prepare_provisioning` leaves behind.
use deep_orc.Prelude.{
  nat_beq_iff, Bool-cases, Option-cases, nat_eq, any, any-append, text_eq, ℕ, ◌≡◌, refl, ap, ◌∙◌,
  inl, inr, Bool, true, false, ◌||◌, some, List, [], ◌∷◌, arith,
}
use deep_orc.Naming.Display.{last}
use deep_orc.Models.{JobStatus, Job}
use deep_orc.Tables.{update}
use deep_orc.Effects.{ok, ◌>>=◌, err_ne_ok}
use deep_orc.Database.{
  Database, gateway_keyed, job_keyed, peer_keyed, group_keyed, worker_keyed, enrollment_keyed,
  registration_keyed,
}
use deep_orc.Database.Gateways.{get_gateway}
use deep_orc.Database.Jobs.{
  is_pending, is_running, is_completed, is_failed, stamp, update_job, create_job_row, is_pending_of,
  latest, is_create_of, get_latest_create_job, reset_job, reset_failed_job,
}
use deep_orc.Database.Jobs.Laws.{stamp-gateway_id, stamp-status}
use deep_orc.Platform.{Platform, Settings}
use deep_orc.Session.{State, query, commit, write, write_at}
use deep_orc.Gateways.Lifecycle.{reopen_gateway, renew_create_job, prepare_provisioning}

reset-pending :
    (gateway_id now : ℕ) (j : Job)
    → is_create_of gateway_id j ≡ true
    → is_pending_of gateway_id (stamp now reset_job j) ≡ true
reset-pending gateway_id now j h =
    rw (stamp-gateway_id now reset_job j, stamp-status now reset_job j) (ground arith)

reset-any :
    (gateway_id now : ℕ) (js : List Job) (j : Job)
    → latest (is_create_of gateway_id) js ≡ some j
    → any (is_pending_of gateway_id) (update j.id (stamp now reset_job) js) ≡ true
reset-any gateway_id now [] j h = cc
reset-any gateway_id now (i ∷ js) j h = elim (Option-cases (latest (is_create_of gateway_id) js)) [
  | inr (k, later) ↦
      let same : k ≡ j = ground arith in
      ground (arith, reset-any gateway_id now js j (later ∙ ap some same))
  | inl last ↦ ground (arith, reset-pending gateway_id now i, nat_beq_iff i.id i.id)
]

latest-any :
    (p q : Job → Bool) (js : List Job) (j : Job)
    → ((i : Job) → p i ≡ true → is_pending i.status ≡ true → q i ≡ true)
    → latest p js ≡ some j
    → is_pending j.status ≡ true
    → any q js ≡ true
latest-any p q [] j both h waits = cc
latest-any p q (i ∷ js) j both h waits = elim (Option-cases (latest p js)) [
  | inr (k, later) ↦
      let same : k ≡ j = ground arith in
      ground (arith, latest-any p q js j both (later ∙ ap some same) waits)
  | inl last ↦ ground (arith, both i)
]

over :
    (s : JobStatus) → is_pending s ≡ false → (is_failed s || is_completed s || is_running s) ≡ true
over s h = ground arith

not_over :
    (s : JobStatus) → is_pending s ≡ true → (is_failed s || is_completed s || is_running s) ≡ false
not_over s h = ground arith

module _ {W : Type 0} (p : Platform W) (config : Settings) (gateway_id : ℕ) where
  renew-pending :
      (now : ℕ) (db : Database)
      → any (is_pending_of gateway_id) (renew_create_job p config gateway_id now db).jobs ≡ true
  unfolding reset_failed_job get_latest_create_job update_job create_job_row
  renew-pending now db = elim (Option-cases (latest (is_create_of gateway_id) db.jobs)) [
    | inl missing ↦ rw missing (any-append (is_pending_of gateway_id) db.jobs _ ∙ ground arith)
    | inr (j, found) ↦ elim (Bool-cases (is_pending j.status)) [
      | inl waits ↦
          rw (found, not_over j.status waits, waits)
            (latest-any (is_create_of gateway_id) (is_pending_of gateway_id) db.jobs j
              (λ i h k. ground arith) found waits)
      | inr done ↦ rw (found, over j.status done) (reset-any gateway_id now db.jobs j found)
    ]
  ]

  -- A call that returns leaves a PENDING job of the gateway, and all that was written is committed.
  pub prepare_provisioning-pending :
      (s : State W)
      → (prepare_provisioning p config gateway_id s).0 ≡ ok tt
      → (any (is_pending_of gateway_id) (prepare_provisioning p config gateway_id s).1.db.jobs
          ≡ true)
        × ((prepare_provisioning p config gateway_id s).1.saved
            ≡ (prepare_provisioning p config gateway_id s).1.db)
  unfolding prepare_provisioning query write write_at commit ◌>>=◌
  prepare_provisioning-pending s h = elim (Option-cases (get_gateway gateway_id s.db)) [
    | inl missing ↦ absurd (err_ne_ok (rw missing at h))
    | inr (g, found) ↦
        rw found (renew-pending (p.now s.world) (reopen_gateway gateway_id g s.db), refl)
  ]
