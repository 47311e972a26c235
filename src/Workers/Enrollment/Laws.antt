-- ===== src/Workers/Enrollment/Laws.antt =====
-- What completing an enrollment does.
use deep_orc.Prelude.{
  leb, Bool-cases, Option-cases, ◌==◌, nat_eq, any, first_holds, Text, text_beq_iff, text_eq, ℕ,
  ◌≡◌, refl, sym, ap, ◌∙◌, inl, inr, true, false, some, List, [], ◌∷◌, ◌++◌, arith,
}
use deep_orc.Models.{WorkerStatus, no_public_ip, Worker, is_local, WorkerEnrollment}
use deep_orc.Tables.{update, keys}
use deep_orc.Effects.{ok, pure, ◌>>=◌, ◌>>◌, err_ne_ok, ok_value}
use deep_orc.Database.{
  Database, gateway_keyed, job_keyed, peer_keyed, group_keyed, worker_keyed, enrollment_keyed,
  registration_keyed,
}
use deep_orc.Database.Workers.{create_worker_row}
use deep_orc.Database.Enrollments.{get_by_token_hash, is_unused, update_enrollment}
use deep_orc.Platform.{RemotePaths, Platform, Settings}
use deep_orc.Session.{State, query, read_world, commit, write_at}
use deep_orc.Session.Rules.{Keeps, Returns, Keeps-outside, Returns-bind, Returns-seq}
use deep_orc.Session.Checks.{raise_if-Keeps}
use deep_orc.Workers.{effective_status}
use deep_orc.Workers.Registration.{RegisterWorkerResult, verify_token, store_worker}
use deep_orc.Workers.Enrollment.{
  CompleteEnrollmentRequest, enrolled_worker, use_enrollment, add_remote, found_enrollment,
  finish_enrollment, complete_enrollment,
}

module _ {W : Type 0} (p : Platform W) (config : Settings) (token : Text)
    (request : CompleteEnrollmentRequest) where
  -- The enrollment of the token, which is fresh at the time `now`, and whose name no worker has.
  pub record IsOpen (now : ℕ) (db : Database) (e : WorkerEnrollment) : Type 0 where
    pub found : found_enrollment p config token db ≡ some e
    pub unused : is_unused e.used_at ≡ true
    pub alive : leb e.expires_at now ≡ false
    pub free_name : any (λ w. w.name == e.name) db.workers ≡ false

  pub found_enrollment-hash :
      (db : Database) (e : WorkerEnrollment)
      → found_enrollment p config token db ≡ some e
      → verify_token p token e.token_hash ≡ true
  unfolding get_by_token_hash
  found_enrollment-hash db e h =
      let same : (e.token_hash == p.hash_token token) ≡ true =
        first_holds (λ r. r.token_hash == p.hash_token token) db.enrollments e h in
      ground (
        arith,
        text_beq_iff e.token_hash (p.hash_token token),
        text_beq_iff (p.hash_token token) e.token_hash,
      )

  -- A call that returns has passed the checks, and goes on with the row found.
  complete-IsOpen :
      (s : State W) (r : RegisterWorkerResult)
      → (complete_enrollment p config token request s).0 ≡ ok r
      → (e : WorkerEnrollment) × IsOpen (p.now s.world) s.db e
        × (complete_enrollment p config token request s ≡ finish_enrollment p config e request s)
  unfolding complete_enrollment query read_world ◌>>=◌
  complete-IsOpen s r h = elim (Option-cases (found_enrollment p config token s.db)) [
    | inl missing ↦ absurd (err_ne_ok (rw missing at h))
    | inr (e, found) ↦
        let proper = found_enrollment-hash s.db e found in
        elim (Bool-cases (is_unused e.used_at)) [
          | inr used ↦ absurd (err_ne_ok (rw (found, proper, used) at h))
          | inl unused ↦ elim (Bool-cases (leb e.expires_at (p.now s.world))) [
            | inl expired ↦ absurd (err_ne_ok (rw (found, proper, unused, expired) at h))
            | inr alive ↦ elim (Bool-cases (any (λ w. w.name == e.name) s.db.workers)) [
              | inl taken ↦ absurd (err_ne_ok (rw (found, proper, unused, alive, taken) at h))
              | inr free ↦ (
                e,
                record { found = found; unused = unused; alive = alive; free_name = free },
                rw (found, proper, unused, alive, free) refl,
              )
            ]
          ]
        ]
  ]

-- The tables of workers and enrollments.
abbrev pub enroll_rows : Database → Database → List Worker × List WorkerEnrollment
enroll_rows db saved = (db.workers, db.enrollments)

module _ {W : Type 0} (p : Platform W) (config : Settings) where
  pub store_worker-Returns :
      (row : ℕ → Worker) (workers : List Worker) (enrollments : List WorkerEnrollment)
      → ((k : ℕ) → (row k).id ≡ k)
      → Returns {W = W} enroll_rows
          (workers, enrollments)
          (query (store_worker p config row))
          (λ w db saved. (enroll_rows db saved ≡ (workers ++ w ∷ [], enrollments)) × (w ≡ row w.id))
  unfolding query store_worker create_worker_row ◌>>=◌
  store_worker-Returns row workers enrollments at_id = record {
    at = λ s e w h.
        let k : ℕ = p.new_key (keys s.db.workers) in
        elim (Bool-cases (any (λ r. r.name == (row k).name) s.db.workers)) [
          | inl used ↦ absurd (err_ne_ok (rw used at h))
          | inr fresh ↦
              let same : row k ≡ w = ok_value (rw fresh at h) in
              rw (← same, fresh, ap (λ v. v.0) e, ap (λ v. v.1) e) (refl, sym (ap row (at_id _)))
        ];
  }

  module _ (e : WorkerEnrollment) (request : CompleteEnrollmentRequest) where
    -- One worker more, enabled and OFFLINE, under the enrollment's name; the enrollment is used,
    -- and all of it is committed.
    pub record IsEnrolled (workers : List Worker) (enrollments : List WorkerEnrollment) (w : Worker)
        (db saved : Database) : Type 0 where
      pub used_at : ℕ
      pub added : db.workers ≡ workers ++ w ∷ []
      pub used : db.enrollments ≡ update e.id (use_enrollment p config used_at w.id) enrollments
      pub same_name : w.name ≡ e.name
      pub enabled : w.enabled ≡ true
      pub not_seen : effective_status used_at w ≡ WorkerStatus.offline
      pub remote : is_local w ≡ false
      pub all_saved : saved ≡ db

    remote_enrolled :
        (paths : RemotePaths) (token : Text) (k : ℕ)
        → is_local (enrolled_worker p config e request paths token k) ≡ false
    unfolding is_local
    remote_enrolled paths token k = refl

    enrolled-status :
        (now : ℕ) (paths : RemotePaths) (token : Text) (k : ℕ)
        → effective_status now (enrolled_worker p config e request paths token k)
          ≡ WorkerStatus.offline
    unfolding effective_status
    enrolled-status now paths token k = refl

    abbrev worker_answer : Worker → Text → RegisterWorkerResult
    worker_answer w token = record { worker = w; worker_token = token }

    use-Returns :
        (workers : List Worker) (enrollments : List WorkerEnrollment) (paths : RemotePaths)
        (token : Text) (w : Worker)
        → w ≡ enrolled_worker p config e request paths token w.id
        → Returns enroll_rows
            (workers ++ w ∷ [], enrollments)
            (write_at p.now (λ used. update_enrollment e.id (use_enrollment p config used w.id))
              >> (commit >> pure (worker_answer w token)))
            (λ r db saved. IsEnrolled workers enrollments r.worker db saved)
    unfolding write_at commit update_enrollment ◌>>=◌
    use-Returns workers enrollments paths token w is_row = record {
      at = λ s v r h.
          let same : w ≡ r.worker = ap (λ x. x.worker) (ok_value h) in
          rw (← same) (record {
            used_at = p.now s.world;
            added = ap (λ x. x.0) v;
            used = ap (λ x. update e.id (use_enrollment p config (p.now s.world) w.id) x.1) v;
            same_name = ap (λ x. x.name) is_row;
            enabled = ap (λ x. x.enabled) is_row;
            not_seen =
                ap (effective_status (p.now s.world)) is_row
                ∙ enrolled-status (p.now s.world) paths token w.id;
            remote = ap is_local is_row ∙ remote_enrolled paths token w.id;
            all_saved = refl;
          });
    }

    add_remote-Keeps :
        {X : Type 0} {view : Database → Database → X} → Keeps view (add_remote p config e request)
    unfolding add_remote
    add_remote-Keeps = record { at = λ s. ground arith }

    finish-Returns :
        (workers : List Worker) (enrollments : List WorkerEnrollment)
        → Returns enroll_rows
            (workers, enrollments)
            (finish_enrollment p config e request)
            (λ r db saved. IsEnrolled workers enrollments r.worker db saved)
    unfolding finish_enrollment
    finish-Returns workers enrollments = Returns-bind _ _ add_remote-Keeps (λ paths.
        Returns-bind _ _ (Keeps-outside _) (λ token.
          Returns-bind _ _ (raise_if-Keeps _ no_public_ip) (λ _.
            Returns-seq _ _
              (store_worker-Returns (enrolled_worker p config e request paths token) workers
                enrollments (λ k. refl))
              (λ w is_row. use-Returns workers enrollments paths token w is_row))))

module _ {W : Type 0} (p : Platform W) (config : Settings) (token : Text)
    (request : CompleteEnrollmentRequest) where
  -- A call that returns has found an enrollment of the token that was neither used nor expired, and
  -- whose name no worker had: it adds one worker of that name, remote, enabled and OFFLINE, marks
  -- the enrollment as used, and has committed that.
  pub complete_enrollment-IsEnrolled :
      (s : State W) (r : RegisterWorkerResult)
      → (complete_enrollment p config token request s).0 ≡ ok r
      → (e : WorkerEnrollment) × IsOpen p config token request (p.now s.world) s.db e
        × IsEnrolled p config e request s.db.workers s.db.enrollments r.worker
            (complete_enrollment p config token request s).1.db
            (complete_enrollment p config token request s).1.saved
  complete_enrollment-IsEnrolled s r h =
      let (e, open_row, step) = complete-IsOpen p config token request s r h in
      (
        e,
        open_row,
        rw step (
            (finish-Returns p config e request s.db.workers s.db.enrollments).at s refl r
              (rw step at h)),
      )
