-- ===== src/Workers/Enrollment/Once.antt =====
-- A token enrolls one worker only.
use deep_orc.Prelude.{
  nat_beq_iff, ◌==◌, nat_eq, first, Text, text_eq, ℕ, ◌≡◌, refl, ◌∙◌, Bool, true, some, List, [],
  ◌∷◌, arith,
}
use deep_orc.Models.{token_used, value_error, WorkerEnrollment}
use deep_orc.Tables.{Keyed, update}
use deep_orc.Effects.{ok, err, ◌>>=◌}
use deep_orc.Database.{
  Database, gateway_keyed, job_keyed, peer_keyed, group_keyed, worker_keyed, enrollment_keyed,
  registration_keyed,
}
use deep_orc.Database.Enrollments.{get_by_token_hash}
use deep_orc.Platform.{Platform, Settings}
use deep_orc.Session.{State, query, read_world}
use deep_orc.Workers.Registration.{RegisterWorkerResult, verify_token}
use deep_orc.Workers.Enrollment.{
  CompleteEnrollmentRequest, use_enrollment, found_enrollment, complete_enrollment,
}
use deep_orc.Workers.Enrollment.Laws.{found_enrollment-hash, complete_enrollment-IsEnrolled}

first-update :
    {A : Type 0} ⦃t : Keyed A⦄ (q : A → Bool) (k : ℕ) (f : A → A) (rows : List A) (a : A)
    → ((r : A) → q (f r) ≡ q r)
    → first q rows ≡ some a
    → t.key a ≡ k
    → first q (update k f rows) ≡ some (f a)
first-update q k f [] a keeps h e = cc
first-update q k f (r ∷ rows) a keeps h e =
    ground (arith, keeps r, first-update q k f rows a keeps, nat_beq_iff k k)

module _ {W : Type 0} (p : Platform W) (config : Settings) (token : Text) where
  found-used :
      (now worker_id : ℕ) (before db : Database) (e : WorkerEnrollment)
      → found_enrollment p config token before ≡ some e
      → db.enrollments ≡ update e.id (use_enrollment p config now worker_id) before.enrollments
      → found_enrollment p config token db ≡ some (use_enrollment p config now worker_id e)
  unfolding get_by_token_hash
  found-used now worker_id before db e found used = rw used (
      first-update (λ r. r.token_hash == p.hash_token token) e.id
        (use_enrollment p config now worker_id) before.enrollments e (λ r. refl) found refl)

  refused :
      (request : CompleteEnrollmentRequest) (s : State W) (now worker_id : ℕ) (e : WorkerEnrollment)
      → verify_token p token e.token_hash ≡ true
      → found_enrollment p config token s.db ≡ some (use_enrollment p config now worker_id e)
      → complete_enrollment p config token request s ≡ (err (value_error token_used), s)
  unfolding complete_enrollment query read_world ◌>>=◌
  refused request s now worker_id e proper found = rw (found, proper) refl

  -- After a call that returned, every call with the same token fails as used and writes nothing,
  -- whatever else it asks for, as long as no other call has changed the enrollments.
  pub complete_enrollment_once :
      (request again : CompleteEnrollmentRequest) (s t : State W) (r : RegisterWorkerResult)
      → (complete_enrollment p config token request s).0 ≡ ok r
      → t.db.enrollments ≡ (complete_enrollment p config token request s).1.db.enrollments
      → complete_enrollment p config token again t ≡ (err (value_error token_used), t)
  complete_enrollment_once request again s t r h same =
      let (e, open_row, enrolled) = complete_enrollment-IsEnrolled p config token request s r h in
      refused again t enrolled.used_at r.worker.id e
        (found_enrollment-hash p config token request s.db e open_row.found)
        (found-used enrolled.used_at r.worker.id s.db t.db e open_row.found (same ∙ enrolled.used))
