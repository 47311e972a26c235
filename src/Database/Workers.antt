-- ===== src/Database/Workers.antt =====
-- orchestrator/repositories/worker_repo.py
use deep_orc.Prelude.{
  if◌then◌else◌, ◌==◌, nat_eq, any, first, select, Text, text_eq, ℕ, Option, some, List, [], ◌∷◌,
  ◌++◌,
}
use deep_orc.Models.{WorkerStatus, integrity_error, Worker}
use deep_orc.Tables.{update}
use deep_orc.Effects.{ok, err}
use deep_orc.Database.{
  Database, gateway_keyed, job_keyed, peer_keyed, group_keyed, worker_keyed, enrollment_keyed,
  registration_keyed, Query,
}

unfoldable pub get_worker_by_name : Text → Database → Option Worker
get_worker_by_name name db = first (λ w. w.name == name) db.workers

unfoldable pub list_enabled : Database → List Worker
list_enabled db = select (λ w. w.enabled) db.workers

-- `name` is unique.
unfoldable pub create_worker_row : Worker → Query (Unit {0})
create_worker_row row db =
    if any (λ w. w.name == row.name) db.workers
    then (err integrity_error, db)
    else (ok tt, record db { workers = db.workers ++ row ∷ [] })

unfoldable pub update_worker : ℕ → (Worker → Worker) → Database → Database
update_worker worker_id f db = record db { workers = update worker_id f db.workers }

-- A heartbeat; the columns of the statistics are left out.
abbrev pub seen_at : ℕ → Worker → Worker
seen_at now w = record w { status = WorkerStatus.online; last_seen_at = some now }

unfoldable pub update_stats : ℕ → ℕ → Database → Database
unfolding update_worker
update_stats worker_id now = update_worker worker_id (seen_at now)
