-- ===== src/Database/Jobs.antt =====
-- orchestrator/repositories/job_repo.py. The column `updated_at` is set by each UPDATE, and the
-- session sends one only for a row in which a column has changed.
pub mod Laws
use native.Mathlib.Decide.{ℕ_discrete}
use mathlib.Core.Logic.{ite}
use deep_orc.Prelude.{
  if◌then◌else◌, ◌==◌, nat_eq, first, Text, text_eq, ℕ, Bool, true, false, not, ◌&&◌, ◌||◌, Option,
  none, some, List, [], ◌∷◌, ◌++◌,
}
use deep_orc.Models.{JobType, JobStatus, Message, Job}
use deep_orc.Tables.{get, update}
use deep_orc.Database.{
  Database, gateway_keyed, job_keyed, peer_keyed, group_keyed, worker_keyed, enrollment_keyed,
  registration_keyed, is_just,
}

abbrev pub is_create : JobType → Bool
is_create JobType.create_gateway = true
is_create JobType.delete_gateway = false

abbrev pub is_pending : JobStatus → Bool
is_pending JobStatus.pending = true
is_pending _ = false

abbrev pub is_running : JobStatus → Bool
is_running JobStatus.running = true
is_running _ = false

abbrev pub is_completed : JobStatus → Bool
is_completed JobStatus.completed = true
is_completed _ = false

abbrev pub is_failed : JobStatus → Bool
is_failed JobStatus.failed = true
is_failed _ = false

pub Job-discrete : Discrete Job
Job-discrete = hlevel ℕ_discrete

-- A flushed change of a row at the time `now`.
pub stamp : ℕ → (Job → Job) → Job → Job
stamp now f j = ite (Job-discrete j (f j)) j (record (f j) { updated_at = now })

unfoldable pub update_job : ℕ → ℕ → (Job → Job) → Database → Database
update_job now job_id f db = record db { jobs = update job_id (stamp now f) db.jobs }

abbrev pub get_job : ℕ → Database → Option Job
get_job job_id db = get job_id db.jobs

unfoldable pub create_job_row : Job → Database → Database
create_job_row row db = record db { jobs = db.jobs ++ row ∷ [] }

abbrev pub new_error : Option Message → Option Message → Option Message
new_error none old = old
new_error (some m) old = some m

abbrev pub set_job_status : JobStatus → Option Message → Job → Job
set_job_status status error j = record j { status = status; error = new_error error j.error }

unfoldable pub update_job_status : ℕ → ℕ → JobStatus → Option Message → Database → Database
unfolding update_job
update_job_status now job_id status error = update_job now job_id (set_job_status status error)

abbrev pub same_stage : Option Text → Text → Bool
same_stage none stage = false
same_stage (some s) stage = s == stage

abbrev pub set_stage : ℕ → Text → Bool → Job → Job
set_stage now stage touch j =
    if not (same_stage j.stage stage) || touch
    then record j { stage = some stage; stage_updated_at = some now }
    else j

-- `update_stage`; a missing job is left alone.
unfoldable pub update_stage : ℕ → ℕ → Text → Bool → Database → Database
unfolding update_job
update_stage now job_id stage touch = update_job now job_id (set_stage now stage touch)

abbrev pub is_pending_of : ℕ → Job → Bool
is_pending_of gateway_id j = is_just j.gateway_id gateway_id && is_pending j.status

unfoldable pub get_pending_for_gateway : ℕ → Database → Option Job
get_pending_for_gateway gateway_id db = first (is_pending_of gateway_id) db.jobs

abbrev pub or_else : Option Job → Option Job → Option Job
or_else none b = b
or_else (some a) b = some a

-- The first row by descending id; rows stand in the order of their ids.
abbrev pub latest : (Job → Bool) → List Job → Option Job
latest p [] = none
latest p (j ∷ js) = or_else (latest p js) (if p j then some j else none)

abbrev pub is_create_of : ℕ → Job → Bool
is_create_of gateway_id j = is_just j.gateway_id gateway_id && is_create j.type

abbrev pub is_delete_of : ℕ → Job → Bool
is_delete_of gateway_id j = is_just j.gateway_id gateway_id && not (is_create j.type)

unfoldable pub get_latest_create_job : ℕ → Database → Option Job
get_latest_create_job gateway_id db = latest (is_create_of gateway_id) db.jobs

unfoldable pub get_latest_delete_job : ℕ → Database → Option Job
get_latest_delete_job gateway_id db = latest (is_delete_of gateway_id) db.jobs

abbrev pub reset_job : Job → Job
reset_job j = record j { status = JobStatus.pending; error = none }

abbrev pub reset_latest : ℕ → Option Job → Database → Option Job × Database
reset_latest now none db = (none, db)
reset_latest now (some j) db =
    if is_failed j.status || is_completed j.status || is_running j.status
    then (some (reset_job j), update_job now j.id reset_job db)
    else (if is_pending j.status then some j else none, db)

-- A job that may be started again, made pending; the row that is returned is as it was flushed.
unfoldable pub reset_failed_job : ℕ → ℕ → Database → Option Job × Database
unfolding get_latest_create_job
reset_failed_job now gateway_id db = reset_latest now (get_latest_create_job gateway_id db) db
