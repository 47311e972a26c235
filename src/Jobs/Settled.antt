-- ===== src/Jobs/Settled.antt =====
-- A job that no worker holds any more.
use deep_orc.Prelude.{
  Bool-cases, nat_eq, contains, Text, text_eq, ℕ, ◌≡◌, refl, ◌∙◌, inl, inr, Bool, true, false, not,
  ◌||◌, Option, none, some, List, [], ◌∷◌, arith,
}
use deep_orc.Models.{JobStatus, Message, Job}
use deep_orc.Tables.{get, update, keys}
use deep_orc.Database.{
  Database, gateway_keyed, job_keyed, peer_keyed, group_keyed, worker_keyed, enrollment_keyed,
  registration_keyed,
}
use deep_orc.Database.Jobs.{
  is_running, is_completed, is_failed, stamp, get_job, set_job_status, update_job_status,
  same_stage, set_stage, update_stage,
}
use deep_orc.Database.Jobs.Laws.{stamp-id, stamp-status}

-- The job has a row, and it is RUNNING.
abbrev pub job_running : ℕ → Database → Bool
job_running job_id db = elim (get_job job_id db) [ none ↦ false | some j ↦ is_running j.status ]

get-settled :
    (k : ℕ) (f : Job → Job) (rows : List Job)
    → ((r : Job) → (f r).id ≡ r.id)
    → ((r : Job) → is_running (f r).status ≡ false)
    → (elim (get k (update k f rows)) [ none ↦ false | some j ↦ is_running j.status ]) ≡ false
get-settled k f [] same idle = refl
get-settled k f (r ∷ rows) same idle =
    ground (arith, same r, idle r, get-settled k f rows same idle)

module _ (job_id now : ℕ) (status : JobStatus) (error : Option Message) (db : Database) where
  pub update_job_status-settled :
      is_running status ≡ false
      → job_running job_id (update_job_status now job_id status error db) ≡ false
  unfolding update_job_status
  update_job_status-settled idle =
      get-settled job_id (stamp now (set_job_status status error)) db.jobs
        (λ r. stamp-id now (set_job_status status error) r)
        (λ r. rw (stamp-status now (set_job_status status error) r) idle)

-- No worker holds the job, and what the session sees is committed.
pub record IsSettled (job_id : ℕ) (db saved : Database) : Type 0 where
  pub idle : job_running job_id db ≡ false
  pub all_saved : saved ≡ db

set_stage-status :
    (now : ℕ) (stage : Text) (touch : Bool) (j : Job)
    → (set_stage now stage touch j).status ≡ j.status
set_stage-status now stage touch j = elim (Bool-cases (not (same_stage j.stage stage) || touch)) [
  | inl t ↦ rw t
  | inr f ↦ rw f
]

pub set_stage-id :
    (now : ℕ) (stage : Text) (touch : Bool) (j : Job) → (set_stage now stage touch j).id ≡ j.id
set_stage-id now stage touch j = elim (Bool-cases (not (same_stage j.stage stage) || touch)) [
  | inl t ↦ rw t
  | inr f ↦ rw f
]

-- The job has a row, and it is COMPLETED or FAILED.
abbrev pub job_ended : ℕ → Database → Bool
job_ended job_id db = elim (get_job job_id db) [
  | none ↦ false
  | some j ↦ is_completed j.status || is_failed j.status
]

-- The job has ended, and what the session sees is committed.
pub record HasEnded (job_id : ℕ) (db saved : Database) : Type 0 where
  pub ended : job_ended job_id db ≡ true
  pub all_saved : saved ≡ db

get-end :
    (k : ℕ) (f : Job → Job) (rows : List Job)
    → ((r : Job) → (f r).id ≡ r.id)
    → ((r : Job) → (is_completed (f r).status || is_failed (f r).status) ≡ true)
    → contains (keys rows) k ≡ true
    → (elim (get k (update k f rows)) [
      | none ↦ false
      | some j ↦ is_completed j.status || is_failed j.status
    ])
      ≡ true
get-end k f [] same over h = cc
get-end k f (r ∷ rows) same over h = ground (arith, same r, over r, get-end k f rows same over)

get-ended :
    (k i : ℕ) (f : Job → Job) (rows : List Job)
    → ((r : Job) → (f r).id ≡ r.id)
    → ((r : Job) → (f r).status ≡ r.status)
    → (elim (get k (update i f rows)) [
      | none ↦ false
      | some j ↦ is_completed j.status || is_failed j.status
    ])
      ≡ (elim (get k rows) [ none ↦ false | some j ↦ is_completed j.status || is_failed j.status ])
get-ended k i f [] same kept = refl
get-ended k i f (r ∷ rows) same kept =
    ground (arith, same r, kept r, get-ended k i f rows same kept)

pub update_stage-ended :
    (k now i : ℕ) (stage : Text) (touch : Bool) (db : Database)
    → job_ended k (update_stage now i stage touch db) ≡ job_ended k db
unfolding update_stage
update_stage-ended k now i stage touch db =
    get-ended k i (stamp now (set_stage now stage touch)) db.jobs
      (λ r. stamp-id now (set_stage now stage touch) r ∙ set_stage-id now stage touch r)
      (λ r. stamp-status now (set_stage now stage touch) r ∙ set_stage-status now stage touch r)

pub update_job_status-ended :
    (k now : ℕ) (status : JobStatus) (error : Option Message) (db : Database)
    → (is_completed status || is_failed status) ≡ true
    → contains (keys db.jobs) k ≡ true
    → job_ended k (update_job_status now k status error db) ≡ true
unfolding update_job_status
update_job_status-ended k now status error db over h =
    get-end k (stamp now (set_job_status status error)) db.jobs
      (λ r. stamp-id now (set_job_status status error) r)
      (λ r. rw (stamp-status now (set_job_status status error) r) over) h
